-- ===== src/Py/Url/Port.antt =====
-- The `port` property of what `urlsplit` returns.
use honest_agent.Prelude.{
  ℕ, ◌+◌, ◌-◌, ◌*◌, ◌≤◌, ◌≡◌, ◌||◌, Option, none, some, [], ◌∷◌, all, not, ltb, length, arith,
  if◌then◌else◌,
}
use honest_agent.Py.Str.{Str, is_empty, partition}
use honest_agent.Py.Unicode.{is_ascii_digit}
use honest_agent.Py.Exec.{value_error, Result, ok, raised}
use honest_agent.Py.Url.{SplitResult, host_and_port}

-- `_hostinfo[1]`, where the empty text is `None`.
unfoldable pub port_part : Str → Str
unfolding host_and_port
port_part netloc =
    let p = partition b'[' (host_and_port netloc) in
    if p.found
    then (partition b':' (partition b']' p.after).after).after
    else (partition b':' (host_and_port netloc)).after

-- `int(s)`, for ASCII digits behind those that gave n.
unfoldable pub ascii_number : ℕ → Str → ℕ
ascii_number n [] = n
ascii_number n (c ∷ s) = ascii_number (n * 10 + (c - 48)) s

-- `int` refuses more than 4300 digits, and the property what is over 65535.
unfoldable pub port_number : Str → Result (Option ℕ)
unfolding is_ascii_digit ascii_number
port_number text =
    if is_empty text
    then ok none
    else if not (all is_ascii_digit text)
    then raised value_error
    else if ltb 4300 (length text) || ltb 65535 (ascii_number 0 text)
    then raised value_error
    else ok (some (ascii_number 0 text))

unfoldable pub port : SplitResult → Result (Option ℕ)
unfolding port_part port_number
port parts = port_number (port_part parts.netloc)

pub port_bound : (parts : SplitResult) (n : ℕ) → port parts ≡ ok (some n) → n ≤ 65535
unfolding port port_number
port_bound parts n h = ground arith
