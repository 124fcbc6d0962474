-- ===== src/Py/Exec/Checked.antt =====
-- Sequencing of code that may raise and awaits nothing.
use honest_agent.Prelude.{◌≡◌, refl}
use honest_agent.Py.Exec.{Result, ok, raised}

module _ {ℓ κ} {A : Type ℓ} {B : Type κ} where
  infixl 5 ◌>>=◌ ◌>>◌
  -- The first exception ends the chain.
  abbrev pub ◌>>=◌ : Result A → (A → Result B) → Result B
  raised e >>= next = raised e
  ok value >>= next = next value

  abbrev pub ◌>>◌ : Result A → Result B → Result B
  first >> second = first >>= λ _. second

  -- A chain that returns has a first step that returned, and went on from there.
  pub chain-ok :
      (next : A → Result B) (first : Result A) {result : B}
      → (first >>= next) ≡ ok result
      → (value : A) × (next value ≡ ok result) × (first ≡ ok value)
  chain-ok next (raised e) returned = cc
  chain-ok next (ok value) returned = (value, returned, refl)
