-- ===== src/Core/Db/Laws.antt =====
-- What a block under `tenant_txn` may see, and how it ends.
use honest_agent.Prelude.{◌≡◌, Bool, true, false, Option, none, some, inl, inr, arith}
use honest_agent.Py.Str.{Str}
use honest_agent.Py.Exec.{ok, Action, Result-cases}
use honest_agent.Py.Exec.Returns.{Returns}
use honest_agent.Core.Db.{Connection, returned, with_context, set_tenant, tenant_txn}

module _ {S A : Type 0} where
  -- A block under `async with` returns only where entering, the block and leaving all do.
  pub with_context_ok :
      (enter : Action S (Unit {0})) (leave : Bool → Action S (Unit {0})) (block : Action S A)
      (s t : S) (a : A)
      → with_context enter leave block s ≡ (ok a, t)
      → (u : S) × ((v : S) × (enter s ≡ (ok tt, u))
          × (block u ≡ (ok a, v))
          × (leave true v ≡ (ok tt, t)))
  unfolding with_context returned
  with_context_ok enter leave block s t a h = elim (Result-cases (enter s).0) [
    | inr (e, failed) ↦ absurd (ground arith)
    | inl (x, entered) ↦ elim (Result-cases (block (enter s).1).0) [
      | inr (e, failed) ↦ elim (Result-cases (leave false (block (enter s).1).1).0) [
        | inr (e', failed') ↦ absurd (ground arith)
        | inl (y, left) ↦ absurd (ground arith)
      ]
      | inl (b, gave) ↦ elim (Result-cases (leave true (block (enter s).1).1).0) [
        | inr (e', failed') ↦ absurd (ground arith)
        | inl (y, left) ↦
            ((enter s).1, ((block (enter s).1).1, ground arith, ground arith, ground arith))
      ]
    ]
  ]

  pub with_context-Returns :
      (enter : Action S (Unit {0})) (leave : Bool → Action S (Unit {0})) (block : Action S A)
      → Returns enter
      → ((done : Bool) → Returns (leave done))
      → Returns block
      → Returns (with_context enter leave block)
  unfolding with_context returned
  with_context-Returns enter leave block enters leaves runs s =
      let (x, (t, entered)) = enters s in
      let (a, (u, gave)) = runs t in let (y, (v, left)) = leaves true u in (a, (v, ground arith))

  with_context_agree :
      (enter : Action S (Unit {0})) (leave : Bool → Action S (Unit {0})) (block other : Action S A)
      (s : S)
      → ((t : S) → enter s ≡ (ok tt, t) → block t ≡ other t)
      → with_context enter leave block s ≡ with_context enter leave other s
  unfolding with_context
  with_context_agree enter leave block other s h = elim (Result-cases (enter s).0) [
    | inr (e, failed) ↦ ground arith
    | inl (u, entered) ↦ ground (arith, h (enter s).1)
  ]

-- What Postgres documents of a transaction-local setting: `in_transaction` tells where the
-- connection is inside one, and `tenant_of` what the policies see. Set inside a transaction, the
-- tenant is seen until its end; set outside one, it is gone with the statement. Taking a connection
-- or giving it back sets none, and neither does beginning a transaction.
pub record SetsTenant {S : Type 0} (connection : Connection S) (in_transaction : S → Bool)
    (tenant_of : S → Option Str) : Type 0 where
  pub begins : (s t : S) → connection.begin s ≡ (ok tt, t) → in_transaction t ≡ true
  pub set_config :
      (tenant_id : Str) (s t : S)
      → in_transaction s ≡ true
      → connection.execute set_tenant tenant_id s ≡ (ok tt, t)
      → tenant_of t ≡ some tenant_id
  pub set_outside :
      (tenant_id : Str) (s : S)
      → in_transaction s ≡ false
      → tenant_of (connection.execute set_tenant tenant_id s).1 ≡ tenant_of s
  pub acquire_keeps : (s : S) → tenant_of (connection.acquire s).1 ≡ tenant_of s
  pub begin_keeps : (s : S) → tenant_of (connection.begin s).1 ≡ tenant_of s
  pub finish_resets : (done : Bool) (s : S) → tenant_of (connection.finish done s).1 ≡ none
  pub release_keeps : (done : Bool) (s : S) → tenant_of (connection.release done s).1 ≡ tenant_of s

module _ {S A : Type 0} (connection : Connection S) (in_transaction : S → Bool)
    (tenant_of : S → Option Str) where
  -- On a connection that keeps `SetsTenant`: a block runs only where the policies see its tenant.
  -- Two blocks that do alike there end in one result and one state, also where an ending call or
  -- the block raises.
  pub tenant_txn-fail_closed :
      SetsTenant connection in_transaction tenant_of
      → (tenant_id : Str) (block other : Action S A) (s : S)
      → ((t : S) → tenant_of t ≡ some tenant_id → block t ≡ other t)
      → tenant_txn connection tenant_id block s ≡ tenant_txn connection tenant_id other s
  unfolding tenant_txn
  tenant_txn-fail_closed laws tenant_id block other s agree =
      with_context_agree connection.acquire connection.release _ _ s (λ t acquired.
        with_context_agree connection.begin connection.finish _ _ t (λ u begun.
          elim (Result-cases (connection.execute set_tenant tenant_id u).0) [
            | inr (e, failed) ↦ ground arith
            | inl (x, set) ↦
                let v = (connection.execute set_tenant tenant_id u).1 in
                let seen = laws.set_config tenant_id u v (laws.begins t u begun) (ground arith) in
                ground (arith, agree v seen)
          ]))

module _ {S A : Type 0} (connection : Connection S) where
  -- Where the connection is taken, the transaction begun and the tenant set: the transaction is
  -- finished, as a commit exactly where the block returned, then the connection is given back, and
  -- where both succeed the result is the block's.
  tenant_txn-ends :
      (tenant_id : Str) (block : Action S A) (s t u v w x : S)
      → connection.acquire s ≡ (ok tt, t)
      → connection.begin t ≡ (ok tt, u)
      → connection.execute set_tenant tenant_id u ≡ (ok tt, v)
      → connection.finish (returned (block v).0) (block v).1 ≡ (ok tt, w)
      → connection.release (returned (block v).0) w ≡ (ok tt, x)
      → tenant_txn connection tenant_id block s ≡ ((block v).0, x)
  unfolding tenant_txn with_context returned
  tenant_txn-ends tenant_id block s t u v w x acquired begun set finished released =
      elim (Result-cases (block v).0) [
        | inl (a, gave) ↦ ground arith
        | inr (e, failed) ↦ ground arith
      ]
