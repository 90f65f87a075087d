-- ===== src/Examples/RepairLoop.antt =====
-- The repair loop of src/specstyle/repair/loop.py on an artifact whose style is too weak: one round
-- repairs it.
use lookfile.Prelude.{◌≡◌, ◌↔◌, ◌≤◌, ◌+◌, ◌++◌, refl, none, some, [], ◌∷◌, nat_eq, list_eq, ok}
use lookfile.Domain.Text.{Text, text}
use lookfile.Domain.Enums.{pass, fail, pass_all_required}
use lookfile.Domain.Artifacts.{}
use lookfile.Domain.Identifiers.{Sha256}
use lookfile.Verification.RuleModels.{artifact_decision}
use lookfile.Verification.Reports.{
  verification_report, find_rule, check_result_refs, item_artifacts, set_size, check_scope,
  check_rule_results, check_all_rules, validate_results, validate_artifacts, validate_rules,
}
use lookfile.Verification.Routing.{
  decide_artifact, results_affecting_artifact, has_manual_policy, validate_stop_reason, route,
  finish,
}
use lookfile.Repair.Scales.{one, tenth, excess, round_to, round, step_up}
use lookfile.Repair.Models.{
  generation_parameters, max_variation_index, repair_patch, RepairPolicy, repair_decision,
  repair_policy, check_policy_version,
}
use lookfile.Repair.Requests.{GenerationRequest, generation_request}
use lookfile.Repair.Actions.{
  known_action_ids, executable_action_ids, change_parameters, patch_for, repair_policy_from_request,
  check_action, is_action_executable, plan_repair_action, build_repair_request,
}
use lookfile.Repair.Context.{
  insert, sorted, applicable_rule_definitions, ordered_required, validate_plan_report, result_for,
  blocking, blocking_among, blocking_rules, validated_context,
}
use lookfile.Repair.Policies.{
  actions, state_key_eq, check_seen, first_repair, repair_of, select_repair, repair_state_key,
}
use lookfile.Repair.Guardrails.{
  passes, gate_bits, vector, gates_before, all_pass, compare_vectors, is_repair_improvement,
}
use lookfile.Repair.Comparison.{request_eq}
use lookfile.Repair.History.{
  GeneratedArtifact, InitialAttempt, RepairHistory, state, plan_for, check_report, check_initial,
  initial_attempt, check_attempt, record_attempt, Replay, replay_attempt, replay_attempts, replay,
  repair_history,
}
use lookfile.Repair.History.Sound.{IsSound, repair_history-IsSound}
use lookfile.Repair.Loop.{
  NextGeneration, next_generation, repair_terminal, make_terminal, terminal, stop_reason,
  trusted_history, next_repair_step, consume_repair_result,
}
use lookfile.Repair.Loop.Trusted.{IsMade, trusted_history_iff}
use lookfile.Repair.Loop.Consumed.{attempt_of, consume_repair_result-extends}
use lookfile.Repair.Loop.Steps.{Asked, settled, one_round, next_repair_step-Asked, Rounds-bounded}
use lookfile.Repair.Loop.Stops.{decision_of, next_repair_step-stops}
use lookfile.Examples.RepairInput.{request, judged, chosen}

-- In place of the hashes of a request
abbrev pub request_hash : GenerationRequest Text Text → Sha256
request_hash r = r.attempt_id

abbrev pub fingerprint : GenerationRequest Text Text → Sha256
fingerprint r = r.material

abbrev pub made_by : GenerationRequest Text Text → Text → GeneratedArtifact
made_by r artifact_id = record {
  ref = record { artifact_id = artifact_id; sha256 = text "00" };
  content = [];
  request_hash = request_hash r;
  generation_fingerprint = fingerprint r;
}

abbrev first : InitialAttempt Text Text
first = record {
  request = request;
  artifact = made_by request (text "a1");
  report = judged (text "a1") fail;
}

abbrev begun : RepairHistory Text Text
begun = record {
  initial_attempt = first;
  repair_attempts = [];
  rounds = 0;
  consecutive_no_improvement = 0;
  seen_state_keys = repair_state_key request ∷ [];
}

abbrev command : NextGeneration Text Text
command = record {
  decision = chosen;
  request = record request {
    attempt_id = text "try-2";
    parent_attempt_id = some (text "try-1");
    execution_parameters = chosen.patch.after_parameters;
  };
}

abbrev repaired : RepairHistory Text Text
repaired = record {
  initial_attempt = first;
  repair_attempts =
      attempt_of begun command (made_by command.request (text "a2")) (judged (text "a2") pass) ∷ [];
  rounds = 1;
  consecutive_no_improvement = 0;
  seen_state_keys = repair_state_key request ∷ repair_state_key command.request ∷ [];
}

begun-IsMade : IsMade request_hash fingerprint begun
unfolding repair_history initial_attempt check_initial state plan_for check_report replay
    replay_attempts replay_attempt check_attempt record_attempt trusted_history next_repair_step
    stop_reason terminal make_terminal consume_repair_result build_repair_request generation_request
    is_repair_improvement validate_plan_report verification_report validate_artifacts validate_rules
    validate_results check_result_refs find_rule check_all_rules check_rule_results check_scope
    item_artifacts set_size applicable_rule_definitions sorted insert repair_decision
    check_policy_version repair_patch generation_parameters one tenth max_variation_index
    blocking_rules blocking_among blocking result_for ordered_required gates_before passes all_pass
    compare_vectors vector gate_bits select_repair validated_context repair_policy_from_request
    repair_policy check_seen decide_artifact results_affecting_artifact validate_stop_reason route
    has_manual_policy finish artifact_decision repair_of first_repair actions is_action_executable
    known_action_ids executable_action_ids plan_repair_action check_action patch_for
    change_parameters step_up round round_to excess
begun-IsMade = refl

trusted_history_iff_example :
    (trusted_history request_hash fingerprint begun ≡ ok begun)
    ↔ ((begun ≡ begun) × IsMade request_hash fingerprint begun)
trusted_history_iff_example = trusted_history_iff request_hash fingerprint begun begun

repair_history-IsSound_example :
    (policy : RepairPolicy) × (last : Replay Text Text) × (replay request_hash fingerprint first []
      ≡ ok last)
    × (repair_policy_from_request request ≡ ok policy)
    × (begun.initial_attempt ≡ first)
    × (begun.repair_attempts ≡ [])
    × (begun.rounds ≡ 0)
    × (begun.rounds ≤ policy.max_rounds)
    × (begun.seen_state_keys ≡ last.seen)
    × (begun.consecutive_no_improvement ≡ last.no_improvement)
    × IsSound request.compiled_spec begun.rounds last
repair_history-IsSound_example =
    repair_history-IsSound request_hash fingerprint first [] begun begun-IsMade

asked :
    next_repair_step request_hash fingerprint begun (text "d1") (text "try-2")
    ≡ ok (next_generation command)
unfolding repair_history initial_attempt check_initial state plan_for check_report replay
    replay_attempts replay_attempt check_attempt record_attempt trusted_history next_repair_step
    stop_reason terminal make_terminal consume_repair_result build_repair_request generation_request
    is_repair_improvement validate_plan_report verification_report validate_artifacts validate_rules
    validate_results check_result_refs find_rule check_all_rules check_rule_results check_scope
    item_artifacts set_size applicable_rule_definitions sorted insert repair_decision
    check_policy_version repair_patch generation_parameters one tenth max_variation_index
    blocking_rules blocking_among blocking result_for ordered_required gates_before passes all_pass
    compare_vectors vector gate_bits select_repair validated_context repair_policy_from_request
    repair_policy check_seen decide_artifact results_affecting_artifact validate_stop_reason route
    has_manual_policy finish artifact_decision repair_of first_repair actions is_action_executable
    known_action_ids executable_action_ids plan_repair_action check_action patch_for
    change_parameters step_up round round_to excess
asked = refl

next_repair_step-Asked_example :
    IsMade request_hash fingerprint begun × Asked begun (text "d1") (text "try-2") command
next_repair_step-Asked_example =
    next_repair_step-Asked request_hash fingerprint begun (text "d1") (text "try-2") command asked

taken :
    consume_repair_result request_hash fingerprint begun command
      (made_by command.request (text "a2"))
      (judged (text "a2") pass)
    ≡ ok repaired
unfolding repair_history initial_attempt check_initial state plan_for check_report replay
    replay_attempts replay_attempt check_attempt record_attempt trusted_history next_repair_step
    stop_reason terminal make_terminal consume_repair_result build_repair_request generation_request
    is_repair_improvement validate_plan_report verification_report validate_artifacts validate_rules
    validate_results check_result_refs find_rule check_all_rules check_rule_results check_scope
    item_artifacts set_size applicable_rule_definitions sorted insert repair_decision
    check_policy_version repair_patch generation_parameters one tenth max_variation_index
    blocking_rules blocking_among blocking result_for ordered_required gates_before passes all_pass
    compare_vectors vector gate_bits select_repair validated_context repair_policy_from_request
    repair_policy check_seen decide_artifact results_affecting_artifact validate_stop_reason route
    has_manual_policy finish artifact_decision repair_of first_repair actions is_action_executable
    known_action_ids executable_action_ids plan_repair_action check_action patch_for
    change_parameters step_up round round_to excess
taken = refl

consume_repair_result-extends_example :
    IsMade request_hash fingerprint begun
    × IsMade request_hash fingerprint repaired
    × (repaired.initial_attempt ≡ begun.initial_attempt)
    × (repaired.repair_attempts
        ≡ begun.repair_attempts
          ++ attempt_of begun command
              (made_by command.request (text "a2"))
              (judged (text "a2") pass)
            ∷ [])
    × (repaired.rounds ≡ begun.rounds + 1)
consume_repair_result-extends_example =
    consume_repair_result-extends request_hash fingerprint begun command
      (made_by command.request (text "a2")) (judged (text "a2") pass) repaired taken

allowed : repair_policy_from_request request ≡ ok request.compiled_spec.repair
unfolding repair_policy_from_request repair_policy check_policy_version
allowed = refl

Rounds-bounded_example : 0 + 1 ≤ 3
Rounds-bounded_example =
    Rounds-bounded request_hash fingerprint request.compiled_spec.repair begun-IsMade allowed (
      one_round (text "d1") (text "try-2") command (made_by command.request (text "a2"))
        (judged (text "a2") pass) asked taken settled)

repaired-IsMade : IsMade request_hash fingerprint repaired
repaired-IsMade = consume_repair_result-extends_example.1

finished : stop_reason repaired ≡ ok (some pass_all_required)
unfolding repair_history initial_attempt check_initial state plan_for check_report replay
    replay_attempts replay_attempt check_attempt record_attempt trusted_history next_repair_step
    stop_reason terminal make_terminal consume_repair_result build_repair_request generation_request
    is_repair_improvement validate_plan_report verification_report validate_artifacts validate_rules
    validate_results check_result_refs find_rule check_all_rules check_rule_results check_scope
    item_artifacts set_size applicable_rule_definitions sorted insert repair_decision
    check_policy_version repair_patch generation_parameters one tenth max_variation_index
    blocking_rules blocking_among blocking result_for ordered_required gates_before passes all_pass
    compare_vectors vector gate_bits select_repair validated_context repair_policy_from_request
    repair_policy check_seen decide_artifact results_affecting_artifact validate_stop_reason route
    has_manual_policy finish artifact_decision repair_of first_repair actions is_action_executable
    known_action_ids executable_action_ids plan_repair_action check_action patch_for
    change_parameters step_up round round_to excess
finished = refl

next_repair_step-stops_example :
    next_repair_step request_hash fingerprint repaired (text "d2") (text "try-3")
    ≡ ok (
        repair_terminal (record {
          artifact_decision = decision_of (text "a2") pass_all_required;
          no_action = none;
        }))
next_repair_step-stops_example =
    next_repair_step-stops request_hash fingerprint repaired (text "d2") (text "try-3")
      pass_all_required repaired-IsMade finished
