-- ===== src/Py/Json/Scans.antt =====
-- What the readers of `json.loads` leave of a text, and what they raise.
pub mod Pieces
pub mod Loops
pub mod Fuel
use honest_agent.Prelude.{ℕ, ◌<◌, ◌≤◌, ◌≡◌, refl, ◌⊎◌, inl, inr, Bool, true, false, length, arith}
use honest_agent.Py.Str.{Str}
use honest_agent.Py.Exec.{
  Exception, value_error, unicode_decode_error, json_decode_error, recursion_error, Result, ok,
  raised,
}
use honest_agent.Py.Exec.Checked.{◌>>=◌}

-- The exceptions of `json.loads`.
unfoldable pub is_json_failure : Exception → Bool
is_json_failure value_error = true
is_json_failure unicode_decode_error = true
is_json_failure json_decode_error = true
is_json_failure recursion_error = true
is_json_failure _ = false

-- A reader leaves less than `n` characters, by `rest`, or fails as `json.loads` does.
abbrev pub Leaves : {A : Type 0} → (A → Str) → ℕ → Result A → Type 0
Leaves rest n (ok a) = length (rest a) < n
Leaves rest n (raised e) = is_json_failure e ≡ true

abbrev pub Scans : {A : Type 0} → ℕ → Result (A × Str) → Type 0
Scans = Leaves (λ x. x.1)

module _ {A B : Type 0} (rest : A → Str) (rest' : B → Str) where
  pub bind-Leaves :
      (m n : ℕ) (r : Result A) (next : A → Result B)
      → Leaves rest m r
      → ((a : A) → length (rest a) < m → Leaves rest' n (next a))
      → Leaves rest' n (r >>= next)
  bind-Leaves m n (ok a) next h k = k a h
  bind-Leaves m n (raised e) next h k = h

module _ {A B : Type 0} where
  pub bind-Scans :
      (m n : ℕ) (r : Result (A × Str)) (next : A × Str → Result (B × Str))
      → Scans m r
      → ((a : A) (t : Str) → length t < m → Scans n (next (a, t)))
      → Scans n (r >>= next)
  bind-Scans m n r next h k = bind-Leaves (λ x. x.1) (λ x. x.1) m n r next h (λ (a, t). k a t)

pub Scans-mono : {A : Type 0} (m n : ℕ) (r : Result (A × Str)) → m ≤ n → Scans m r → Scans n r
Scans-mono m n (ok (a, t)) h k = omega arith
Scans-mono m n (raised e) h k = k

pub is_json_failure-cases :
    (e : Exception)
    → is_json_failure e ≡ true
    → (e ≡ json_decode_error)
      ⊎ ((e ≡ unicode_decode_error) ⊎ ((e ≡ recursion_error) ⊎ (e ≡ value_error)))
unfolding is_json_failure
is_json_failure-cases json_decode_error h = inl refl
is_json_failure-cases unicode_decode_error h = inr (inl refl)
is_json_failure-cases recursion_error h = inr (inr (inl refl))
is_json_failure-cases value_error h = inr (inr (inr refl))
is_json_failure-cases _ h = absurd (ground arith)
