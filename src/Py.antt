-- ===== src/Py.antt =====
-- What the program uses of Python itself: text, URLs, exceptions and awaitable calls.
pub mod Str
pub mod Value
pub mod Exec
pub mod Utf8
pub mod Json
pub mod Dict
pub mod Jwt
pub mod Http
pub mod Unicode
pub mod Url
