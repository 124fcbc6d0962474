-- ===== src/Py/Json.antt =====
-- `json.loads` on bytes, as CPython 3.12 runs it.
pub mod Encoding
pub mod Strings
pub mod Numbers
pub mod Decode
pub mod Print
pub mod Refused
pub mod Scans
pub mod Raises
pub mod Tests
