-- ===== src/Tenants/Gate/Limits.antt =====
-- When a body or a declared length is within the gate's limit.
use honest_agent.Prelude.{ℕ, ◌≤◌, ◌≡◌, refl, true, false, arith, Bool-cases, inl, inr}
use honest_agent.Py.Value.{ℤ, pos, negsuc}
use honest_agent.Tenants.Gate.Checks.{exceeds}

-- The limit is not negative, and the length is at most the limit.
abbrev pub Fits : ℕ → ℤ → Type 0
Fits n limit = (m : ℕ) × (limit ≡ pos m) × (n ≤ m)

pub exceeds-Fits : (n : ℕ) (limit : ℤ) → exceeds n limit ≡ false → Fits n limit
unfolding exceeds
exceeds-Fits n (pos m) h = (m, refl, ground arith)
exceeds-Fits n (negsuc m) h = absurd (ground arith)

pub Fits-exceeds : (n : ℕ) (limit : ℤ) → Fits n limit → exceeds n limit ≡ false
unfolding exceeds
Fits-exceeds n limit (m, same, h) = rw same (ground arith)

pub exceeds_over : (n : ℕ) (limit : ℤ) → exceeds n limit ≡ true → ¬ Fits n limit
exceeds_over n limit h fits = let no = Fits-exceeds n limit fits in ground arith

pub over_exceeds : (n : ℕ) (limit : ℤ) → ¬ Fits n limit → exceeds n limit ≡ true
over_exceeds n limit over = elim (Bool-cases (exceeds n limit)) [
  | inl more ↦ more
  | inr fits ↦ absurd (over (exceeds-Fits n limit fits))
]
