-- ===== src/Py/Str.antt =====
-- Python's `str`, as the list of its code points, with the methods that the program calls.
-- What depends on the whole Unicode database is in `Py.Unicode`.
pub mod Laws
pub mod Split
pub mod Decimal
use Prim.Native.Char.{code}
use Prim.Native.String
use honest_agent.Prelude.{
  ℕ, String, Bool, true, false, ◌&&◌, ◌||◌, List, [], ◌∷◌, leb, ◌==◌, if◌then◌else◌, any,
}

abbrev pub Str : Type 0
Str = List ℕ

-- A literal of the source.
unfoldable pub codes : String → Str
codes String.[] = []
codes (String.◌∷◌ c s) = code c ∷ codes s

-- `s == t`.
unfoldable pub str_eq : Str → Str → Bool
str_eq [] [] = true
str_eq (a ∷ s) (b ∷ t) = a == b && str_eq s t
str_eq _ _ = false

-- `s in hosts`, for a set of texts.
unfoldable pub member : Str → List Str → Bool
unfolding str_eq
member s hosts = any (str_eq s) hosts

-- `c in s`, for one character.
unfoldable pub has : ℕ → Str → Bool
has c s = any (λ d. d == c) s

-- `not s`.
unfoldable pub is_empty : Str → Bool
is_empty [] = true
is_empty (c ∷ s) = false

-- The characters that `str.isspace` accepts.
unfoldable pub is_space : ℕ → Bool
is_space c =
    leb 9 c && leb c 13
    || leb 28 c && leb c 32
    || c == 0x85
    || c == 0xa0
    || c == 0x1680
    || leb 0x2000 c && leb c 0x200a
    || c == 0x2028
    || c == 0x2029
    || c == 0x202f
    || c == 0x205f
    || c == 0x3000

-- Drops the leading characters that pass the test.
unfoldable pub drop_while : (ℕ → Bool) → Str → Str
drop_while p [] = []
drop_while p (c ∷ s) = if p c then drop_while p s else c ∷ s

-- Drops the trailing characters that pass the test.
unfoldable pub drop_while_end : (ℕ → Bool) → Str → Str
drop_while_end p [] = []
drop_while_end p (c ∷ s) =
    let rest = drop_while_end p s in if is_empty rest && p c then [] else c ∷ rest

-- `s.strip()`.
unfoldable pub strip : Str → Str
unfolding is_space drop_while drop_while_end is_empty
strip s = drop_while_end is_space (drop_while is_space s)

-- `s.rstrip(c)`, for one character.
unfoldable pub rstrip : ℕ → Str → Str
unfolding drop_while_end is_empty
rstrip c s = drop_while_end (λ d. d == c) s

-- `s.partition(c)`, for one character.
pub record Parts : Type 0 where
  pub before : Str
  pub found : Bool
  pub after : Str

partition_cons : ℕ → Parts → Parts
partition_cons d p = record p { before = d ∷ p.before }

unfoldable pub partition : ℕ → Str → Parts
unfolding partition_cons
partition c [] = record { before = []; found = false; after = [] }
partition c (d ∷ s) =
    if d == c
    then record { before = []; found = true; after = s }
    else partition_cons d (partition c s)

-- `s.rpartition(c)[2]`, for one character: what stands behind its last occurrence.
unfoldable pub after_last : ℕ → Str → Str
unfolding has
after_last c [] = []
after_last c (d ∷ s) =
    let rest = after_last c s in if has c s then rest else if d == c then s else d ∷ rest

-- `s.startswith(prefix)`.
unfoldable pub starts_with : Str → Str → Bool
starts_with [] s = true
starts_with (a ∷ p) (b ∷ s) = a == b && starts_with p s
starts_with (a ∷ p) [] = false

-- `s.replace(c, "")`, for one character.
unfoldable pub remove : ℕ → Str → Str
remove c [] = []
remove c (d ∷ s) = let rest = remove c s in if d == c then rest else d ∷ rest

-- `s.replace(c, d)`, for single characters.
unfoldable pub replace : ℕ → ℕ → Str → Str
replace c d [] = []
replace c d (e ∷ s) = (if e == c then d else e) ∷ replace c d s

-- `s.isascii()`.
unfoldable pub is_ascii : Str → Bool
is_ascii [] = true
is_ascii (c ∷ s) = leb c 127 && is_ascii s
