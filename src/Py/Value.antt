-- ===== src/Py/Value.antt =====
-- The values of JSON documents and token claims, as Python reads them.
use honest_agent.Prelude.{
  ℕ, suc, ◌+◌, ◌-◌, ltb, ◌≡◌, refl, ◌≢◌, Bool, Option, none, some, [], ◌∷◌, arith, if◌then◌else◌,
}
use honest_agent.Py.Str.{Str, str_eq}

-- An `int`; `negsuc n` is -(n + 1).
pub data ℤ : Type 0 where
  pos : ℕ → ℤ
  negsuc : ℕ → ℤ

infixl 6 ◌+ℤ◌
unfoldable pub ◌+ℤ◌ : ℤ → ℤ → ℤ
pos m +ℤ pos n = pos (m + n)
pos m +ℤ negsuc n = if ltb n m then pos (m - suc n) else negsuc (n - m)
negsuc m +ℤ pos n = if ltb m n then pos (n - suc m) else negsuc (m - n)
negsuc m +ℤ negsuc n = negsuc (m + n + 1)

-- A `float` is kept as the number that its 64 bits spell; what Python computes with floats is a
-- parameter of the code that does so.
abbrev pub Float : Type 0
Float = ℕ

-- A `dict` holds each key once; `Fields` lists its entries in order.
mutual
  pub data Fields : Type 0 where
    end : Fields
    field : Str → Value → Fields → Fields

  pub data Items : Type 0 where
    no_items : Items
    item : Value → Items → Items

  pub data Value : Type 0 where
    obj : Fields → Value
    arr : Items → Value
    str : Str → Value
    int : ℤ → Value
    float : Float → Value
    bool : Bool → Value
    null : Value

-- `d.get(key)`, which is `None` (`null`) for a key that is missing.
unfoldable pub get : Str → Fields → Value
get key end = null
get key (field k v fs) = if str_eq key k then v else get key fs

-- The value at a key, if the key is there.
unfoldable pub find : Str → Fields → Option Value
find key end = none
find key (field k v fs) = if str_eq key k then some v else find key fs

-- The value where it is a `str` that is not empty: `isinstance(v, str) and v`.
unfoldable pub nonempty_str : Value → Option Str
nonempty_str (str []) = none
nonempty_str (str (c ∷ s)) = some (c ∷ s)
nonempty_str _ = none

pub nonempty_str-eq-some : (v : Value) (s : Str) → nonempty_str v ≡ some s → (v ≡ str s) × (s ≢ [])
unfolding nonempty_str
nonempty_str-eq-some (str (c ∷ t)) s h = ground arith
nonempty_str-eq-some _ s h = ground arith

pub nonempty_str_lem : (s : Str) → s ≢ [] → nonempty_str (str s) ≡ some s
unfolding nonempty_str
nonempty_str_lem [] h = absurd (h refl)
nonempty_str_lem (c ∷ s) h = refl
