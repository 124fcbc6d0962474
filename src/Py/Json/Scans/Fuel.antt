-- ===== src/Py/Json/Scans/Fuel.antt =====
-- The loops of `json.loads` do not run out of fuel: more of it changes nothing.
use honest_agent.Prelude.{
  ℕ, zero, suc, ◌<◌, ◌≤◌, ◌≡◌, refl, ap, inl, inr, Option-cases, true, false, arith, length,
}
use honest_agent.Py.Str.{Str}
use honest_agent.Py.Value.{Float, Value, Fields, item}
use honest_agent.Py.Exec.{Result, ok, raised}
use honest_agent.Py.Exec.Checked.{◌>>=◌}
use honest_agent.Py.Json.Decode.{
  skip, set, separator, scan_items, scan_pair, scan_fields, scan_once,
}
use honest_agent.Py.Json.Scans.{Leaves, Scans}
use honest_agent.Py.Json.Scans.Loops.{behind, scan_pair-Leaves, scan_once-Scans}

module _ {A B : Type 0} (rest : A → Str) where
  bind_agree :
      (n : ℕ) (r : Result A) (next other : A → Result B)
      → Leaves rest n r
      → ((a : A) → length (rest a) < n → next a ≡ other a)
      → (r >>= next) ≡ (r >>= other)
  bind_agree n (ok a) next other small same = same a small
  bind_agree n (raised e) next other small same = refl

module _ (value : Str → Result (Value × Str))
    (value-Scans : (s : Str) → Scans (length s) (value s)) where
  items_agree :
      (f g : ℕ) (s : Str)
      → 0 < f
      → 0 < g
      → length s ≤ f
      → length s ≤ g
      → scan_items value f s ≡ scan_items value g s
  unfolding scan_items
  items_agree zero g s p q h k = absurd (omega arith)
  items_agree (suc f) zero s p q h k = absurd (omega arith)
  items_agree (suc f) (suc g) s p q h k =
      bind_agree (λ x. x.1) (length s) (value s) _ _ (value-Scans s)
        λ (v, t) small. elim (Option-cases (separator b']' (skip t))) [
          | inl neither ↦ rw (neither, scan_items) refl
          | inr ((true, u), ends) ↦ rw (ends, scan_items) refl
          | inr ((false, u), goes_on) ↦
              let less = (behind b']' t u false goes_on).1 in
              rw (goes_on, scan_items)
                (ap (λ r. r >>= λ x. ok (item v x.0, x.1))
                  (items_agree f g (skip u) (omega arith) (omega arith) (omega arith)
                    (omega arith)))
        ]

  fields_agree :
      (f g : ℕ) (d : Fields) (s : Str)
      → 0 < f
      → 0 < g
      → length s ≤ f
      → length s ≤ g
      → scan_fields value f d s ≡ scan_fields value g d s
  unfolding scan_fields
  fields_agree zero g d s p q h k = absurd (omega arith)
  fields_agree (suc f) zero d s p q h k = absurd (omega arith)
  fields_agree (suc f) (suc g) d s p q h k =
      bind_agree (λ x. x.1.1) (length s) (scan_pair value s) _ _
        (scan_pair-Leaves value value-Scans s)
        λ (key, (v, t)) small. elim (Option-cases (separator b'}' (skip t))) [
          | inl neither ↦ rw (neither, scan_fields) refl
          | inr ((true, u), ends) ↦ rw (ends, scan_fields) refl
          | inr ((false, u), goes_on) ↦
              let less = (behind b'}' t u false goes_on).1 in
              rw (goes_on, scan_fields)
                (fields_agree f g (set key v d) (skip u) (omega arith) (omega arith) (omega arith)
                  (omega arith))
        ]

-- Any fuel from the length of a text on reads the same items and the same entries of it.
fuel_suffices :
    (parse_float : Str → Float) (depth fuel : ℕ) (d : Fields) (s : Str)
    → 0 < length s
    → length s ≤ fuel
    → (scan_items (scan_once parse_float depth) fuel s
        ≡ scan_items (scan_once parse_float depth) (length s) s)
      × (scan_fields (scan_once parse_float depth) fuel d s
          ≡ scan_fields (scan_once parse_float depth) (length s) d s)
fuel_suffices parse_float depth fuel d s p h =
    let value = scan_once parse_float depth in
    (
      items_agree value (scan_once-Scans parse_float depth) fuel (length s) s (omega arith) p h
          (omega arith),
      fields_agree value (scan_once-Scans parse_float depth) fuel (length s) d s (omega arith) p h
          (omega arith),
    )
