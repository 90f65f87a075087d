-- ===== src/Workflow/Orchestrator/Ends.antt =====
-- The loop of `_run_item` ends, whatever the services return.
use lookfile.Prelude.{
  ℕ, zero, suc, ◌+◌, ◌≡◌, ◌≢◌, ◌≤◌, ◌<◌, refl, sym, ap, ◌∙◌, arith, Option, some, List, Eq, Result,
  ok, err, ok_inj, >>=-eq-ok,
}
use lookfile.Domain.Text.{Text}
use lookfile.Domain.Identifiers.{JobId, Sha256}
use lookfile.Domain.Artifacts.{ArtifactRef}
use lookfile.Verification.RuleModels.{RuleDefinition, RuleResult}
use lookfile.Workflow.Events.{Event}
use lookfile.Repair.Models.{RepairPolicy}
use lookfile.Repair.Requests.{GenerationRequest}
use lookfile.Repair.Actions.{repair_policy_from_request}
use lookfile.Repair.Comparison.{request_eq}
use lookfile.Repair.History.{GeneratedArtifact, RepairHistory}
use lookfile.Repair.History.Sound.{repair_history-IsSound}
use lookfile.Repair.Loop.{
  NextGeneration, RepairTerminal, RepairStep, next_generation, repair_terminal,
  start_repair_history,
}
use lookfile.Repair.Loop.Trusted.{IsMade, repair_history-IsMade}
use lookfile.Repair.Loop.Consumed.{consume_repair_result-extends}
use lookfile.Workflow.Orchestrator.{
  Cursor, Staged, judge, take_round, continued, by_step, repair_loop, started_loop, first_history,
  from_rules, from_artifact, first_attempt, run_item,
}

too_few : (rounds own bound : ℕ) → rounds ≤ own → own ≡ bound → bound < rounds + 0 → rounds ≢ rounds
too_few rounds own bound within same enough e = omega (arith, within, same, enough)

module _ (encoded_size : List Event → ℕ) (timestamp : Text) {Binding Material : Type 0}
    ⦃d : Eq Binding⦄ ⦃m : Eq Material⦄
    (request_hash generation_fingerprint : GenerationRequest Binding Material → Sha256)
    (generate : GenerationRequest Binding Material → Result GeneratedArtifact)
    (verify : List ArtifactRef → List RuleDefinition → Result (List RuleResult)) where
  -- A run that has not run out of fuel
  abbrev pub HasEnded : Option (Staged (RepairHistory Binding Material × RepairTerminal)) → Type 0
  HasEnded o = (r : Staged (RepairHistory Binding Material × RepairTerminal)) × (o ≡ some r)

  continued-HasEnded :
      (again : RepairHistory Binding Material
        → Option (Staged (RepairHistory Binding Material × RepairTerminal)))
      (cursor : Cursor) (r : Result (RepairHistory Binding Material))
      → ((next : RepairHistory Binding Material) → r ≡ ok next → HasEnded (again next))
      → HasEnded (
          continued encoded_size timestamp request_hash generation_fingerprint generate verify again
            cursor r)
  continued-HasEnded again cursor (ok next) h = h next refl
  continued-HasEnded again cursor (err x) h = (_, refl)

  by_step-HasEnded :
      (again : RepairHistory Binding Material
        → Option (Staged (RepairHistory Binding Material × RepairTerminal)))
      (rules : List RuleDefinition) (job_id : JobId) (item : ℕ)
      (history : RepairHistory Binding Material) (cursor : Cursor)
      (step : Result (RepairStep Binding Material))
      → ((command : NextGeneration Binding Material) (next : RepairHistory Binding Material)
          → take_round encoded_size timestamp request_hash generation_fingerprint generate verify
              rules history command
            ≡ ok next
          → HasEnded (again next))
      → HasEnded (
          by_step encoded_size timestamp request_hash generation_fingerprint generate verify again
            rules job_id item history cursor step)
  by_step-HasEnded again rules job_id item history cursor (err x) h = (_, refl)
  by_step-HasEnded again rules job_id item history cursor (ok (repair_terminal step)) h = (_, refl)
  by_step-HasEnded again rules job_id item history cursor (ok (next_generation command)) h =
      continued-HasEnded again cursor _ (h command)

  -- A round of the loop is a round of the history.
  take_round-grows :
      (rules : List RuleDefinition) (history : RepairHistory Binding Material)
      (command : NextGeneration Binding Material) (next : RepairHistory Binding Material)
      → take_round encoded_size timestamp request_hash generation_fingerprint generate verify rules
          history command
        ≡ ok next
      → IsMade request_hash generation_fingerprint next
        × (next.initial_attempt ≡ history.initial_attempt)
        × (next.rounds ≡ history.rounds + 1)
  unfolding take_round
  take_round-grows rules history command next h =
      let (child, _, h1) = >>=-eq-ok (generate command.request) _ h in
      let (report, _, h2) =
        >>=-eq-ok
          (judge encoded_size timestamp request_hash generation_fingerprint generate verify rules
            child)
          _ h1 in
      let (_, made, same, _, count) =
        consume_repair_result-extends request_hash generation_fingerprint history command child
          report next h2 in
      (made, same, count)

  repair_loop-HasEnded :
      (fuel : ℕ) (rules : List RuleDefinition) (job_id : JobId) (profile : Text) (item : ℕ)
      (cursor : Cursor) (history : RepairHistory Binding Material) (policy : RepairPolicy)
      → IsMade request_hash generation_fingerprint history
      → repair_policy_from_request history.initial_attempt.request ≡ ok policy
      → policy.max_rounds < history.rounds + fuel
      → HasEnded (
          repair_loop encoded_size timestamp request_hash generation_fingerprint generate verify
            fuel rules job_id profile item cursor history)
  unfolding repair_loop
  repair_loop-HasEnded zero rules job_id profile item cursor history policy made allowed enough =
      let (own, _, _, read, _, _, _, within, _, _, _) =
        repair_history-IsSound request_hash generation_fingerprint _ _ history made in
      elim (too_few _ _ _ within
        (ap (λ (p : RepairPolicy). p.max_rounds) (ok_inj (sym read ∙ allowed))) enough refl) [ ]
  repair_loop-HasEnded (suc fuel) rules job_id profile item cursor history policy made allowed
        enough =
      by_step-HasEnded _ rules job_id item history cursor _ (λ command next taken.
        let (again, same, count) = take_round-grows rules history command next taken in
        repair_loop-HasEnded fuel rules job_id profile item cursor next policy again
          (ap (λ i. repair_policy_from_request i.request) same ∙ allowed)
          (omega (arith, enough, count)))

  started-HasEnded :
      (fuel : ℕ) (rules : List RuleDefinition) (job_id : JobId) (profile : Text) (item : ℕ)
      (cursor : Cursor) (request : GenerationRequest Binding Material) (policy : RepairPolicy)
      → repair_policy_from_request request ≡ ok policy
      → policy.max_rounds < fuel
      → (r : Result (RepairHistory Binding Material))
      → ((history : RepairHistory Binding Material)
          → r ≡ ok history
          → IsMade request_hash generation_fingerprint history
            × (history.initial_attempt.request ≡ request))
      → HasEnded (
          started_loop encoded_size timestamp request_hash generation_fingerprint generate verify
            fuel rules job_id profile item r cursor)
  started-HasEnded fuel rules job_id profile item cursor request policy allowed enough (err x) h =
      (_, refl)
  started-HasEnded fuel rules job_id profile item cursor request policy allowed enough (ok history)
        h =
      let (made, same) = h history refl in
      repair_loop-HasEnded fuel rules job_id profile item cursor history policy made
        (ap repair_policy_from_request same ∙ allowed) (omega (arith, enough))

  first_history-IsMade :
      (request : GenerationRequest Binding Material) (artifact : GeneratedArtifact)
      (rules : List RuleDefinition) (history : RepairHistory Binding Material)
      → first_history encoded_size timestamp request_hash generation_fingerprint generate verify
          request artifact rules
        ≡ ok history
      → IsMade request_hash generation_fingerprint history
        × (history.initial_attempt.request ≡ request)
  unfolding first_history start_repair_history
  first_history-IsMade request artifact rules history h =
      let (report, _, h1) =
        >>=-eq-ok
          (judge encoded_size timestamp request_hash generation_fingerprint generate verify rules
            artifact)
          _ h in
      let (_, _, _, _, same, _, _, _, _, _, _) =
        repair_history-IsSound request_hash generation_fingerprint _ _ history h1 in
      (
        repair_history-IsMade request_hash generation_fingerprint _ _ history h1,
        ap (λ i. i.request) same,
      )

  -- Whatever the services return and the store raises, one item ends: with fuel above the rounds that
  -- the policy of its request allows, it returns or raises.
  pub run_item-HasEnded :
      (fuel : ℕ) (job_id : JobId) (profile : Text) (item : ℕ)
      (request : GenerationRequest Binding Material) (cursor : Cursor) (policy : RepairPolicy)
      → repair_policy_from_request request ≡ ok policy
      → policy.max_rounds < fuel
      → HasEnded (
          run_item encoded_size timestamp request_hash generation_fingerprint generate verify fuel
            job_id profile item request cursor)
  unfolding run_item
  run_item-HasEnded fuel job_id profile item request cursor policy allowed enough = from_first (
      first_attempt encoded_size timestamp request_hash generation_fingerprint generate verify
        job_id item request cursor)
    where
      with_rules :
          (artifact : GeneratedArtifact) (cursor : Cursor) (rules : Result (List RuleDefinition))
          → HasEnded (
              from_rules encoded_size timestamp request_hash generation_fingerprint generate verify
                fuel job_id profile item request artifact cursor rules)
      with_rules artifact cursor (err x) = (_, refl)
      with_rules artifact cursor (ok rules) =
          started-HasEnded fuel rules job_id profile item cursor request policy allowed enough _
            (first_history-IsMade request artifact rules)

      from_first :
          (s : Staged GeneratedArtifact)
          → HasEnded (
              from_artifact encoded_size timestamp request_hash generation_fingerprint generate
                verify fuel job_id profile item request s)
      from_first (err x, cursor) = (_, refl)
      from_first (ok artifact, cursor) = with_rules artifact cursor _
