-- ===== src/Repair/History/Sound.antt =====
-- What a history that was made holds.
use lookfile.Prelude.{
  ℕ, ◌+◌, ◌≡◌, ◌≤◌, refl, sym, ap, ◌∙◌, subst, arith, Bool, false, List, [], ◌∷◌, ◌++◌, Eq, ◌==◌,
  nat_eq, list_eq, ok, ok_inj, >>=-eq-ok, >>-eq-ok, after_guard, relabel-eq-ok, contains,
  has_duplicates, length, length-append, ltb, ◌||◌, ==_sym,
}
use lookfile.Domain.Identifiers.{Sha256}
use lookfile.Repair.Models.{RepairPolicy, repair_policy}
use lookfile.Repair.Comparison.{request_eq}
use lookfile.Repair.Requests.{CompiledStyleSpec, GenerationRequest}
use lookfile.Repair.Actions.{repair_policy_from_request}
use lookfile.Repair.Policies.{StateKey, state_key_eq}
use lookfile.Repair.Policies.Children.{build_repair_request-child}
use lookfile.Repair.History.{
  InitialAttempt, RepairAttempt, RepairHistory, Replay, state, check_initial, initial_attempt,
  replay_attempt, replay_attempts, replay_start, replay, repair_history,
}
use lookfile.Repair.History.Rounds.{replay_attempt_inv}

module _ {A : Type 0} ⦃e : Eq A⦄ where
  contains-snoc :
      (x y : A) (xs : List A)
      → contains x xs ≡ false
      → (x == y) ≡ false
      → contains x (xs ++ y ∷ []) ≡ false
  contains-snoc x y [] h k = ground (arith, k)
  contains-snoc x y (z ∷ zs) h k = ground (arith, h, contains-snoc x y zs)

  has_duplicates-snoc :
      (x : A) (xs : List A)
      → has_duplicates xs ≡ false
      → contains x xs ≡ false
      → has_duplicates (xs ++ x ∷ []) ≡ false
  has_duplicates-snoc x [] h k = refl
  has_duplicates-snoc x (z ∷ zs) h k =
      let (fresh, rest) = or_false _ _ h in
      let (differs, later) = or_false _ _ k in
      rw (contains-snoc z x zs fresh (==_sym z x ∙ differs), has_duplicates-snoc x zs rest later)
        refl
    where
      or_false : (a b : Bool) → (a || b) ≡ false → (a ≡ false) × (b ≡ false)
      or_false a b h = ground arith

module _ {Binding Material : Type 0} where
  -- A replay after some attempts: as many states as attempts and one, none twice, and no id twice.
  pub record IsSound (spec : CompiledStyleSpec Binding) (rounds : ℕ) (r : Replay Binding Material)
      : Type 0 where
    pub spec_kept : r.request.compiled_spec ≡ spec
    pub counted : length r.seen ≡ rounds + 1
    pub states_differ : has_duplicates r.seen ≡ false
    pub attempts_differ : has_duplicates r.attempt_ids ≡ false
    pub decisions_differ : has_duplicates r.decision_ids ≡ false
    pub artifacts_differ : has_duplicates r.artifact_ids ≡ false
    pub bounded : r.no_improvement ≤ rounds

  pub replay_start-IsSound :
      (initial : InitialAttempt Binding Material) (key : StateKey)
      → IsSound initial.request.compiled_spec 0 (replay_start initial key)
  replay_start-IsSound initial key = record {
    spec_kept = refl;
    counted = refl;
    states_differ = refl;
    attempts_differ = refl;
    decisions_differ = refl;
    artifacts_differ = refl;
    bounded = omega arith;
  }

module _ {Binding Material : Type 0} ⦃d : Eq Binding⦄ ⦃m : Eq Material⦄
    (request_hash generation_fingerprint : GenerationRequest Binding Material → Sha256) where
  round-IsSound :
      (spec : CompiledStyleSpec Binding) (rounds : ℕ) (r next : Replay Binding Material)
      (attempt : RepairAttempt Binding Material)
      → IsSound spec rounds r
      → replay_attempt request_hash generation_fingerprint r attempt ≡ ok next
      → IsSound spec (rounds + 1) next
  round-IsSound spec rounds r next attempt s h =
      let (plan, accepted, recorded) =
        replay_attempt_inv request_hash generation_fingerprint r attempt next h in
      let child =
        build_repair_request-child r.request attempt.decision attempt.request.attempt_id
          attempt.request accepted.built in
      record {
        spec_kept =
            ap (λ (q : GenerationRequest Binding Material). q.compiled_spec)
              (recorded.request ∙ child.0)
            ∙ s.spec_kept;
        counted = ap length recorded.seen ∙ (length-append r.seen _ ∙ ap (λ n. n + 1) s.counted);
        states_differ =
            subst (λ l. has_duplicates l ≡ false) (sym recorded.seen)
              (has_duplicates-snoc _ r.seen s.states_differ recorded.new_state);
        attempts_differ =
            subst (λ l. has_duplicates l ≡ false) (sym recorded.attempt_ids)
              (has_duplicates-snoc _ r.attempt_ids s.attempts_differ accepted.new_attempt);
        decisions_differ =
            subst (λ l. has_duplicates l ≡ false) (sym recorded.decision_ids)
              (has_duplicates-snoc _ r.decision_ids s.decisions_differ accepted.new_decision);
        artifacts_differ =
            subst (λ l. has_duplicates l ≡ false) (sym recorded.artifact_ids)
              (has_duplicates-snoc _ r.artifact_ids s.artifacts_differ accepted.new_artifact);
        bounded = omega (arith, recorded.no_improvement, s.bounded);
      }

  replay_attempts-IsSound :
      (spec : CompiledStyleSpec Binding) (rounds : ℕ) (r last : Replay Binding Material)
      (attempts : List (RepairAttempt Binding Material))
      → IsSound spec rounds r
      → replay_attempts request_hash generation_fingerprint r attempts ≡ ok last
      → IsSound spec (rounds + length attempts) last
  unfolding replay_attempts
  replay_attempts-IsSound spec rounds r last [] s h =
      subst (λ n. IsSound spec n last) (omega arith) (subst (IsSound spec rounds) (ok_inj h) s)
  replay_attempts-IsSound spec rounds r last (attempt ∷ attempts) s h =
      let (next, round, rest) =
        >>=-eq-ok (replay_attempt request_hash generation_fingerprint r attempt) _ h in
      subst (λ n. IsSound spec n last) (omega arith)
        (replay_attempts-IsSound spec (rounds + 1) next last attempts
          (round-IsSound spec rounds r next attempt s round) rest)

  pub replay-IsSound :
      (initial : InitialAttempt Binding Material) (attempts : List (RepairAttempt Binding Material))
      (last : Replay Binding Material)
      → replay request_hash generation_fingerprint initial attempts ≡ ok last
      → (policy : RepairPolicy) × (repair_policy_from_request initial.request ≡ ok policy)
        × (length attempts ≤ policy.max_rounds)
        × IsSound initial.request.compiled_spec (length attempts) last
  unfolding replay repair_policy_from_request
  replay-IsSound initial attempts last h =
      let (key, _, h1) = >>=-eq-ok (state initial.request) _ h in
      let (end, replayed, h2) =
        >>=-eq-ok
          (replay_attempts request_hash generation_fingerprint (replay_start initial key) attempts)
          _ h1 in
      let (policy, read, h3) = >>=-eq-ok (repair_policy_from_request end.request) _ h2 in
      let (within, same) = after_guard (ltb policy.max_rounds (length attempts)) _ _ h3 in
      let sound =
        subst (λ n. IsSound initial.request.compiled_spec n end) (unit_add (length attempts))
          (replay_attempts-IsSound initial.request.compiled_spec 0 (replay_start initial key) end
            attempts (replay_start-IsSound initial key) replayed) in
      (
        policy,
        subst (λ (spec : CompiledStyleSpec Binding). repair_policy spec.repair ≡ ok policy)
            sound.spec_kept read,
        not_ltb policy.max_rounds (length attempts) within,
        subst (IsSound initial.request.compiled_spec (length attempts)) (ok_inj same) sound,
      )
    where
      not_ltb : (a b : ℕ) → ltb a b ≡ false → b ≤ a
      not_ltb a b h = ground arith

      unit_add : (n : ℕ) → 0 + n ≡ n
      unit_add n = omega arith

  -- A history that is made has as many rounds as attempts, no more than the policy of its first
  -- request allows, and its replay has one state more than rounds, no state, attempt id, decision id or
  -- artifact id twice, and no more rounds without an improvement than rounds.
  pub repair_history-IsSound :
      (initial : InitialAttempt Binding Material) (attempts : List (RepairAttempt Binding Material))
      (history : RepairHistory Binding Material)
      → repair_history request_hash generation_fingerprint initial attempts ≡ ok history
      → (policy : RepairPolicy) × (last : Replay Binding Material) × (replay request_hash
            generation_fingerprint initial attempts
          ≡ ok last)
        × (repair_policy_from_request initial.request ≡ ok policy)
        × (history.initial_attempt ≡ initial)
        × (history.repair_attempts ≡ attempts)
        × (history.rounds ≡ length attempts)
        × (history.rounds ≤ policy.max_rounds)
        × (history.seen_state_keys ≡ last.seen)
        × (history.consecutive_no_improvement ≡ last.no_improvement)
        × IsSound initial.request.compiled_spec history.rounds last
  unfolding repair_history initial_attempt
  repair_history-IsSound initial attempts history h =
      let (made, checked, h1) =
        >>=-eq-ok (initial_attempt request_hash generation_fingerprint initial) _
          (relabel-eq-ok _ _ h) in
      let (_, same) =
        >>-eq-ok (check_initial request_hash generation_fingerprint initial) _
          (relabel-eq-ok _ _ checked) in
      let (last, replayed, h2) =
        >>=-eq-ok (replay request_hash generation_fingerprint made attempts) _ h1 in
      let p = sym (ok_inj same) in
      let q =
        subst (λ m. replay request_hash generation_fingerprint m attempts ≡ ok last) p replayed in
      let (policy, read, within, sound) = replay-IsSound initial attempts last q in
      let e = ok_inj h2 in
      (
        policy,
        last,
        q,
        read,
        sym (ap (λ (x : RepairHistory Binding Material). x.initial_attempt) e) ∙ p,
        sym (ap (λ (x : RepairHistory Binding Material). x.repair_attempts) e),
        sym (ap (λ (x : RepairHistory Binding Material). x.rounds) e),
        subst (λ n. n ≤ policy.max_rounds) (ap (λ (x : RepairHistory Binding Material). x.rounds) e)
            within,
        sym (ap (λ (x : RepairHistory Binding Material). x.seen_state_keys) e),
        sym (ap (λ (x : RepairHistory Binding Material). x.consecutive_no_improvement) e),
        subst (λ n. IsSound initial.request.compiled_spec n last)
            (ap (λ (x : RepairHistory Binding Material). x.rounds) e) sound,
      )
