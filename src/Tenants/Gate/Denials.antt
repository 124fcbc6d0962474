-- ===== src/Tenants/Gate/Denials.antt =====
-- Why `authorize` refuses a visitor, and which collaborators it has called by then.
use honest_agent.Prelude.{
  String, ◌≡◌, ◌↔◌, inl, inr, true, false, none, some, arith, Bool-cases, Option-cases, length,
}
use honest_agent.Py.Str.{Str, codes}
use honest_agent.Py.Unicode.{Unicode}
use honest_agent.Py.Value.{Value}
use honest_agent.Py.Exec.{Exception, app, Result, ok, raised, Result-cases}
use honest_agent.Core.Errors.{
  authentication_error, payload_too_large_error, rate_limited_error, ErrorClass,
}
use honest_agent.Tenants.WidgetKeys.{WidgetKeyRecord}
use honest_agent.Tenants.Gate.{Bytes, VisitorGate, Visit, authorize}
use honest_agent.Tenants.Gate.Authorize.{found-cases}
use honest_agent.Tenants.Gate.Limits.{Fits, exceeds-Fits, Fits-exceeds, exceeds_over, over_exceeds}
use honest_agent.Tenants.Gate.Checks.{exceeds, given_key, check_origin, sanitize_query}

-- The refusal as an exception.
abbrev pub refusal : ErrorClass → String → Exception
refusal kind detail = app (record { kind = kind; detail = codes detail })

module _ {S : Type 0} (unicode : Unicode) (loads : Bytes → Result Value) where
  -- The steps in their order. Each refusal names the state it leaves behind: the first one, the
  -- one after the store's lookup, or the one after the rate limiter.
  pub record Known (gate : VisitorGate S) (visit : Visit) (s t : S) (key : Str)
      (found : WidgetKeyRecord) : Type 0 where
    pub fits : Fits (length visit.body) gate.max_body_bytes
    pub has_key : given_key visit.widget_key ≡ some key
    pub is_known : gate.store.lookup key s ≡ (ok (some found), t)

  pub data Denied (gate : VisitorGate S) (visit : Visit) (s u : S) (e : Exception) : Type 0 where
    too_large :
        ¬ Fits (length visit.body) gate.max_body_bytes
        → e ≡ refusal payload_too_large_error "request body exceeds the visitor limit"
        → u ≡ s
        → Denied gate visit s u e
    no_key :
        Fits (length visit.body) gate.max_body_bytes
        → given_key visit.widget_key ≡ none
        → e ≡ refusal authentication_error "missing widget key"
        → u ≡ s
        → Denied gate visit s u e
    lookup_failed :
        (key : Str)
        → Fits (length visit.body) gate.max_body_bytes
        → given_key visit.widget_key ≡ some key
        → gate.store.lookup key s ≡ (raised e, u)
        → Denied gate visit s u e
    unknown_key :
        (key : Str)
        → Fits (length visit.body) gate.max_body_bytes
        → given_key visit.widget_key ≡ some key
        → gate.store.lookup key s ≡ (ok none, u)
        → e ≡ refusal authentication_error "unknown widget key"
        → Denied gate visit s u e
    origin_refused :
        (key : Str) (found : WidgetKeyRecord)
        → Known gate visit s u key found
        → check_origin unicode visit.origin visit.referer found.allowed_hosts ≡ raised e
        → Denied gate visit s u e
    limiter_failed :
        (key : Str) (found : WidgetKeyRecord) (t : S)
        → Known gate visit s t key found
        → check_origin unicode visit.origin visit.referer found.allowed_hosts ≡ ok tt
        → gate.rate_limiter.check key visit.client_ip t ≡ (raised e, u)
        → Denied gate visit s u e
    over_limit :
        (key : Str) (found : WidgetKeyRecord) (t : S)
        → Known gate visit s t key found
        → check_origin unicode visit.origin visit.referer found.allowed_hosts ≡ ok tt
        → gate.rate_limiter.check key visit.client_ip t ≡ (ok false, u)
        → e ≡ refusal rate_limited_error "rate limit exceeded"
        → Denied gate visit s u e
    bad_query :
        (key : Str) (found : WidgetKeyRecord) (t : S)
        → Known gate visit s t key found
        → check_origin unicode visit.origin visit.referer found.allowed_hosts ≡ ok tt
        → gate.rate_limiter.check key visit.client_ip t ≡ (ok true, u)
        → sanitize_query loads visit.body ≡ raised e
        → Denied gate visit s u e

  denied_complete :
      (gate : VisitorGate S) (visit : Visit) (s u : S) (e : Exception)
      → Denied gate visit s u e
      → authorize unicode loads gate visit s ≡ (raised e, u)
  unfolding authorize
  denied_complete gate visit s u e (too_large a b c) =
      ground (arith, over_exceeds (length visit.body) gate.max_body_bytes a)
  denied_complete gate visit s u e (no_key a b c d) =
      ground (arith, Fits-exceeds (length visit.body) gate.max_body_bytes a)
  denied_complete gate visit s u e (lookup_failed key a b c) =
      ground (arith, Fits-exceeds (length visit.body) gate.max_body_bytes a)
  denied_complete gate visit s u e (unknown_key key a b c d) =
      ground (arith, Fits-exceeds (length visit.body) gate.max_body_bytes a)
  denied_complete gate visit s u e (origin_refused key found a b) =
      ground (arith, Fits-exceeds (length visit.body) gate.max_body_bytes a.fits)
  denied_complete gate visit s u e (limiter_failed key found t a b c) =
      ground (arith, Fits-exceeds (length visit.body) gate.max_body_bytes a.fits)
  denied_complete gate visit s u e (over_limit key found t a b c d) =
      ground (arith, Fits-exceeds (length visit.body) gate.max_body_bytes a.fits)
  denied_complete gate visit s u e (bad_query key found t a b c d) =
      ground (arith, Fits-exceeds (length visit.body) gate.max_body_bytes a.fits)

  known_sound :
      (gate : VisitorGate S) (visit : Visit) (s t u : S) (e : Exception) (key : Str)
      (found : WidgetKeyRecord)
      → Known gate visit s t key found
      → authorize unicode loads gate visit s ≡ (raised e, u)
      → Denied gate visit s u e
  unfolding authorize
  known_sound gate visit s t u e key found k h =
      let within = Fits-exceeds (length visit.body) gate.max_body_bytes k.fits in
      elim (Result-cases (check_origin unicode visit.origin visit.referer found.allowed_hosts)) [
        | inr (e', refused) ↦
            let k' : Known gate visit s u key found = record {
              fits = k.fits;
              has_key = k.has_key;
              is_known = ground arith;
            } in
            origin_refused key found k' (ground arith)
        | inl (_, passes) ↦ elim (Result-cases (gate.rate_limiter.check key visit.client_ip t).0) [
          | inr (e', failed) ↦ limiter_failed key found t k passes (ground arith)
          | inl (true, under) ↦ bad_query key found t k passes (ground arith) (ground arith)
          | inl (false, over) ↦ over_limit key found t k passes (ground arith) (ground arith)
        ]
      ]

  denied_sound :
      (gate : VisitorGate S) (visit : Visit) (s u : S) (e : Exception)
      → authorize unicode loads gate visit s ≡ (raised e, u)
      → Denied gate visit s u e
  unfolding authorize
  denied_sound gate visit s u e h =
      elim (Bool-cases (exceeds (length visit.body) gate.max_body_bytes)) [
        | inl big ↦
            too_large (exceeds_over (length visit.body) gate.max_body_bytes big) (ground arith)
              (ground arith)
        | inr within ↦ elim (Option-cases (given_key visit.widget_key)) [
          | inl missing ↦
              no_key (exceeds-Fits (length visit.body) gate.max_body_bytes within) missing
                (ground arith) (ground arith)
          | inr (key, given) ↦ elim (found-cases (gate.store.lookup key s).0) [
            | inl (found, known) ↦
                let k : Known gate visit s (gate.store.lookup key s).1 key found = record {
                  fits = exceeds-Fits (length visit.body) gate.max_body_bytes within;
                  has_key = given;
                  is_known = ground arith;
                } in
                known_sound gate visit s (gate.store.lookup key s).1 u e key found k h
            | inr (inl unknown) ↦
                unknown_key key (exceeds-Fits (length visit.body) gate.max_body_bytes within) given
                  (ground arith) (ground arith)
            | inr (inr (e', failed)) ↦
                lookup_failed key (exceeds-Fits (length visit.body) gate.max_body_bytes within)
                  given (ground arith)
          ]
        ]
      ]

  -- A visit is refused with an exception, leaving a state behind, exactly in the cases of `Denied`:
  -- for the first check that fails, its exception, after the collaborators that were asked before
  -- it and no other.
  pub denied_iff :
      (gate : VisitorGate S) (visit : Visit) (s u : S) (e : Exception)
      → (authorize unicode loads gate visit s ≡ (raised e, u)) ↔ Denied gate visit s u e
  denied_iff gate visit s u e = (denied_sound gate visit s u e, denied_complete gate visit s u e)
