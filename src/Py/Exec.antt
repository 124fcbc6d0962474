-- ===== src/Py/Exec.antt =====
-- Code that may raise, and code that awaits its collaborators. An awaited call changes the state
-- `S` of the world outside and may raise; what it wrote before stays written.
pub mod Checked
pub mod Returns
use honest_agent.Prelude.{
  ◌≡◌, refl, ◌⊎◌, inl, inr, ℕ, Bool, true, false, Option, none, some, List, [], ◌∷◌, arith,
}
use honest_agent.Py.Str.{Str}
use honest_agent.Core.Errors.{AppError, ErrorClass}

-- What a call raises: an `AppError`, one of the library exceptions that the code meets, or
-- another exception of a collaborator, by a number.
pub data Exception : Type 0 where
  app : AppError → Exception
  value_error type_error unicode_decode_error json_decode_error recursion_error py_jwt_error
        attribute_error key_error runtime_error http_status_error :
      Exception
  external : ℕ → Exception

pub data Result {ℓ} (A : Type ℓ) : Type ℓ where
  ok : A → Result A
  raised : Exception → Result A

-- `raise Class(detail)`.
abbrev pub fail {ℓ} : {A : Type ℓ} → ErrorClass → Str → Result A
fail kind detail = raised (app (record { kind = kind; detail = detail }))

-- `if not test: raise Class(detail)`.
abbrev pub require : Bool → ErrorClass → Str → Result (Unit {0})
require true kind detail = ok tt
require false kind detail = fail kind detail

-- `if v is None: raise Class(detail)`, and the value else.
abbrev pub some_or {ℓ} : {A : Type ℓ} → Option A → ErrorClass → Str → Result A
some_or none kind detail = fail kind detail
some_or (some a) kind detail = ok a

pub Result-cases {ℓ} :
    {A : Type ℓ} (r : Result A) → ((a : A) × (r ≡ ok a)) ⊎ ((e : Exception) × (r ≡ raised e))
Result-cases (ok a) = inl (a, refl)
Result-cases (raised e) = inr (e, refl)

abbrev pub Action {ℓ} : Type ℓ → Type ℓ → Type ℓ
Action S A = S → Result A × S

module _ {ℓ} {S A : Type ℓ} where
  abbrev pub pure : A → Action S A
  pure a s = (ok a, s)

  abbrev pub lift : Result A → Action S A
  lift r s = (r, s)

  -- The result of a call under `try`, for a handler.
  abbrev pub attempt : Action S A → Action S (Result A)
  attempt m s = let (r, s') = m s in (ok r, s')

module _ {ℓ} {S A B : Type ℓ} where
  abbrev pub continue : Result A → (A → Action S B) → Action S B
  continue (ok a) f s = f a s
  continue (raised e) f s = (raised e, s)

module _ {ℓ} {S A B : Type ℓ} where
  -- What follows a call matters only at what the call returns.
  pub continue_agree :
      (r : Result A) (f g : A → Action S B) (s : S)
      → ((a : A) → r ≡ ok a → f a s ≡ g a s)
      → continue r f s ≡ continue r g s
  continue_agree (ok a) f g s h = h a refl
  continue_agree (raised e) f g s h = refl

  infixl 5 ◌>>=◌ ◌>>◌
  abbrev pub ◌>>=◌ : Action S A → (A → Action S B) → Action S B
  ◌>>=◌ m f s = let (r, s') = m s in continue r f s'

  abbrev pub ◌>>◌ : Action S A → Action S B → Action S B
  m >> k = m >>= λ _. k

  -- A call and what follows it return only where each of them does.
  pub bind-ok :
      (m : Action S A) (f : A → Action S B) (s t : S) (b : B)
      → (m >>= f) s ≡ (ok b, t)
      → (a : A) × ((u : S) × (m s ≡ (ok a, u)) × (f a u ≡ (ok b, t)))
  bind-ok m f s t b h = elim (Result-cases (m s).0) [
    | inl (a, returned) ↦ (a, ((m s).1, ground arith, ground arith))
    | inr (e, failed) ↦ absurd (ground arith)
  ]

-- `try: block finally: final`. What `final` raises takes the place of the block's result.
unfoldable pub try_finally {ℓ} : {S A : Type ℓ} → Action S A → Action S (Unit {ℓ}) → Action S A
try_finally block final = do outcome ← attempt block; final; lift outcome

-- `for x in xs: body(x)`.
unfoldable pub for_each {ℓ} :
    {S A : Type ℓ} → List A → (A → Action S (Unit {ℓ})) → Action S (Unit {ℓ})
for_each [] body = pure tt
for_each (x ∷ xs) body = do body x; for_each xs body

pub try_finally_ok :
    {S A : Type 0} (block : Action S A) (final : Action S (Unit {0})) (s t : S) (a : A)
    → try_finally block final s ≡ (ok a, t)
    → (u : S) × (block s ≡ (ok a, u)) × (final u ≡ (ok tt, t))
unfolding try_finally
try_finally_ok block final s t a h = elim (Result-cases (block s).0) [
  | inr (e, failed) ↦ elim (Result-cases (final (block s).1).0) [
    | inr (e', failed') ↦ absurd (ground arith)
    | inl (x, ended) ↦ absurd (ground arith)
  ]
  | inl (b, gave) ↦ elim (Result-cases (final (block s).1).0) [
    | inr (e', failed') ↦ absurd (ground arith)
    | inl (x, ended) ↦ ((block s).1, ground arith, ground arith)
  ]
]
