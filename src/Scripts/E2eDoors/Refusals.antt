-- ===== src/Scripts/E2eDoors/Refusals.antt =====
-- The MCP door, whatever its calls raise.
use honest_agent.Prelude.{◌+◌, ◌≡◌, refl, Bool, true, false, ◌&&◌, [], ◌∷◌, ◌++◌, arith, length}
use honest_agent.Py.Str.{Str, codes, member}
use honest_agent.Py.Exec.{Exception, Result, ok, raised, Action, ◌>>◌}
use honest_agent.Scripts.E2eDoors.Checks.{Results, check}
use honest_agent.Scripts.E2eDoors.Session.{
  McpClient, McpOutcome, is_some, expect_called, expect_refused, mcp_call, check_called,
  check_refused, mcp_door,
}
use honest_agent.Scripts.E2eDoors.Counts.{passed_all, length-snoc, passed_all-snoc}

-- A call was refused: it raised.
abbrev pub refused : {A : Type 0} → Result A → Bool
refused (ok a) = false
refused (raised e) = true

-- The tool was listed, and the call of it gave something.
abbrev pub called : Result McpOutcome → Bool
called (ok outcome) = member (codes "answer") outcome.tools && is_some outcome.result
called (raised e) = false

module _ {S : Type 0} where
  check_called_lem :
      (repr : Exception → Str) (r : Result McpOutcome) (s : S) (results : Results)
      → (label : Str) × (check_called repr r (s, results)
          ≡ (ok tt, (s, results ++ ((called r, label) ∷ []))))
  unfolding check_called check
  check_called_lem repr (ok outcome) s results = (_, refl)
  check_called_lem repr (raised e) s results = (_, refl)

  check_refused_lem :
      (text : Str) (r : Result McpOutcome) (s : S) (results : Results)
      → (label : Str) × (check_refused text r (s, results)
          ≡ (ok tt, (s, results ++ ((refused r, label) ∷ []))))
  unfolding check_refused check
  check_refused_lem text (ok outcome) s results = (_, refl)
  check_refused_lem text (raised e) s results = (_, refl)

length-three :
    (results : Results) (a b c : Bool × Str)
    → length (((results ++ (a ∷ [])) ++ (b ∷ [])) ++ (c ∷ [])) ≡ 3 + length results
length-three results a b c =
    let one = results ++ (a ∷ []) in
    ground (arith, length-snoc results a, length-snoc one b, length-snoc (one ++ (b ∷ [])) c)

passed_all-three :
    (results : Results) (p q r : Bool) (a b c : Str)
    → passed_all (((results ++ ((p, a) ∷ [])) ++ ((q, b) ∷ [])) ++ ((r, c) ∷ []))
      ≡ (passed_all results && p && q && r)
passed_all-three results p q r a b c =
    let one = results ++ ((p, a) ∷ []) in
    ground (
      arith,
      passed_all-snoc results p a,
      passed_all-snoc one q b,
      passed_all-snoc (one ++ ((q, b) ∷ [])) r c,
    )

-- What follows a call that has returned.
after :
    {T : Type 0} (m k : Action T (Unit {0})) (s t : T) (r : Result (Unit {0}) × T)
    → m s ≡ (ok tt, t)
    → k t ≡ r
    → (m >> k) s ≡ r
after m k s t r h rest = ground (arith, h, rest)

module _ {S : Type 0} (client : McpClient S) (repr : Exception → Str) (base_url : Str) where
  -- The three calls of the MCP door, each in the state that the one before it has left.
  abbrev pub first_call : (good : Str) → S → Result McpOutcome × S
  first_call good = mcp_call client repr base_url good (codes "https://claude.ai")

  abbrev pub second_call : (good : Str) → S → Result McpOutcome × S
  second_call good s =
      mcp_call client repr base_url (codes "not-a-real-token") (codes "https://claude.ai")
        (first_call good s).1

  abbrev pub third_call : (good : Str) → S → Result McpOutcome × S
  third_call good s =
      mcp_call client repr base_url good (codes "https://evil.com") (second_call good s).1

  expect_called_lem :
      (token origin : Str) (s : S) (results : Results)
      → let call = mcp_call client repr base_url token origin s in
        (label : Str) × (expect_called client repr base_url token origin (s, results)
          ≡ (ok tt, (call.1, results ++ ((called call.0, label) ∷ []))))
  unfolding expect_called
  expect_called_lem token origin s results =
      let call = mcp_call client repr base_url token origin s in
      check_called_lem repr call.0 call.1 results

  expect_refused_lem :
      (token origin text : Str) (s : S) (results : Results)
      → let call = mcp_call client repr base_url token origin s in
        (label : Str) × (expect_refused client repr base_url token origin text (s, results)
          ≡ (ok tt, (call.1, results ++ ((refused call.0, label) ∷ []))))
  unfolding expect_refused
  expect_refused_lem token origin text s results =
      let call = mcp_call client repr base_url token origin s in
      check_refused_lem text call.0 call.1 results

  -- The MCP door always returns, whatever its three calls raise, and adds three checks: that the
  -- first call listed and called the tool, and that each of the other two was refused. The calls
  -- are made one after the other, each in the state that the one before it has left.
  pub mcp_door_total :
      (good : Str) (s : S) (results : Results)
      → (results' : Results) × (mcp_door client repr base_url good (s, results)
          ≡ (ok tt, ((third_call good s).1, results')))
        × (length results' ≡ 3 + length results)
        × (passed_all results' ≡ (
            passed_all results
            && called (first_call good s).0
            && refused (second_call good s).0
            && refused (third_call good s).0))
  unfolding mcp_door
  mcp_door_total good s results =
      let step1 = expect_called client repr base_url good (codes "https://claude.ai") in
      let step2 =
        expect_refused client repr base_url (codes "not-a-real-token") (codes "https://claude.ai")
          (codes "bad token") in
      let step3 =
        expect_refused client repr base_url good (codes "https://evil.com")
          (codes "disallowed origin") in
      let first = first_call good s in
      let second = second_call good s in
      let third = third_call good s in
      let (a, one) = expect_called_lem good (codes "https://claude.ai") s results in
      let r1 = results ++ ((called first.0, a) ∷ []) in
      let (b, two) =
        expect_refused_lem (codes "not-a-real-token") (codes "https://claude.ai")
          (codes "bad token") first.1 r1 in
      let r2 = r1 ++ ((refused second.0, b) ∷ []) in
      let (c, three) =
        expect_refused_lem good (codes "https://evil.com") (codes "disallowed origin") second.1
          r2 in
      (
        r2 ++ ((refused third.0, c) ∷ []),
        after step1 (step2 >> step3) (s, results) (first.1, r1) _ one
            (after step2 step3 (first.1, r1) (second.1, r2) _ two three),
        length-three results _ _ _,
        passed_all-three results (called first.0) (refused second.0) (refused third.0) a b c,
      )
