-- ===== src/Workflow/JobStore/Validation.antt =====
-- A log that validates goes on validating when an event is appended that replays from its state.
use mathlib.Core.List.Memᴰ
use lookfile.Prelude.{
  ℕ, ◌≤◌, ◌≡◌, refl, sym, ap, ◌∙◌, subst, true, List, [], ◌∷◌, ◌++◌, Memᴰ, arith, ok, >>=-eq-ok,
  after_guard, leb, length, length-append, take, drop, take-append, drop-append, take-append-drop,
  ◌==◌, ◌!=◌, ==→eq, list_eq, nat_eq, true_of_not, leb→le, le→leb, two_match, ==_refl, String,
}
use lookfile.Domain.Identifiers.{JobId}
use lookfile.Workflow.JobModels.{Job, created, make_job, job_budget}
use lookfile.Workflow.Events.{Event, JobSnapshot, JobState, make_state, job_state_eq}
use lookfile.Workflow.StateMachine.{replay_events}
use lookfile.Workflow.StateMachine.Validity.{make_job_inv}
use lookfile.Workflow.StateMachine.Replay.{
  IsSound, AllMade, replay_events-append, replay_events-IsSound,
}
use lookfile.Workflow.JobStore.{canonical_genesis, validated_snapshot}

-- The parts of a validation that succeeds.
pub record Validated (job_id : JobId) (snapshot : JobSnapshot) (events : List Event)
    (state : JobState) : Type 0 where
  pub of_job : (snapshot.job.job_id == job_id) ≡ true
  pub within : snapshot.last_sequence ≤ length events
  pub genesis : JobSnapshot
  pub begun : canonical_genesis snapshot.job ≡ ok genesis
  pub prefix : replay_events genesis (take snapshot.last_sequence events) ≡ ok snapshot
  pub checked : make_state "invalid job snapshot" snapshot ≡ ok snapshot
  pub rest : replay_events snapshot (drop snapshot.last_sequence events) ≡ ok state

pub make_state-same :
    (message : String) (state : JobState) {made : JobState}
    → make_state message state ≡ ok made
    → state ≡ made
unfolding make_state
make_state-same message state h = ground arith

make_job-same : (job : Job) {made : Job} → make_job job ≡ ok made → job ≡ made
unfolding make_job
make_job-same job h = ground arith

pub validated_snapshot-Validated :
    (job_id : JobId) (snapshot : JobSnapshot) (events : List Event) (state : JobState)
    → validated_snapshot job_id snapshot events ≡ ok state
    → Validated job_id snapshot events state
unfolding validated_snapshot
validated_snapshot-Validated job_id snapshot events state h =
    let (bounds, h1) = after_guard _ _ _ h in
    let (genesis, begun, h2) = >>=-eq-ok (canonical_genesis snapshot.job) _ h1 in
    let (prefix, played, h3) =
      >>=-eq-ok (replay_events genesis (take snapshot.last_sequence events)) _ h2 in
    let (expected, made, h4) = >>=-eq-ok (make_state "invalid job snapshot" prefix) _ h3 in
    let (same, rest) = after_guard (snapshot != expected) _ _ h4 in
    let e : snapshot ≡ expected = ==→eq snapshot expected (true_of_not _ same) in
    let f : prefix ≡ expected = make_state-same "invalid job snapshot" prefix made in
    let (known, inside) =
      two_match (snapshot.job.job_id == job_id) (leb snapshot.last_sequence (length events))
        bounds in
    record {
      of_job = known;
      within = leb→le _ _ inside;
      genesis = genesis;
      begun = begun;
      prefix = played ∙ ap ok (f ∙ sym e);
      checked = ap (make_state "invalid job snapshot") (e ∙ sym f) ∙ made ∙ ap ok (sym e);
      rest =
          subst (λ s. replay_events s (drop snapshot.last_sequence events) ≡ ok state) (sym e) rest;
    }

pub Validated-validated_snapshot :
    (job_id : JobId) (snapshot : JobSnapshot) (events : List Event) (state : JobState)
    → Validated job_id snapshot events state
    → validated_snapshot job_id snapshot events ≡ ok state
unfolding validated_snapshot
Validated-validated_snapshot job_id snapshot events state v =
    rw (v.of_job, le→leb _ _ v.within, v.begun, v.prefix, v.checked, ==_refl snapshot) v.rest

-- The genesis of a job is a sound snapshot.
genesis-IsSound :
    (job : Job) (genesis : JobSnapshot) → canonical_genesis job ≡ ok genesis → IsSound genesis
unfolding canonical_genesis
genesis-IsSound job genesis h =
    let (budget, _, h1) = >>=-eq-ok (job_budget job.budget.max_attempts_per_item) _ h in
    let (made, built, h2) =
      >>=-eq-ok
        (make_job (record job { budget = budget; status = created; updated_at = job.created_at })) _
        h1 in
    let (ordered, cohort, made_at, updated) = make_job_inv _ built in
    let same_job = make_job-same _ built in
    let same_state =
      make_state-same "invalid job snapshot"
        (record { job = made; last_sequence = 0; attempt_ids = []; bundle_names = [] }) h2 in
    subst IsSound same_state (
      subst
        (λ (j : Job).
          IsSound (record { job = j; last_sequence = 0; attempt_ids = []; bundle_names = [] }))
        same_job
        (record {
          ordered = ordered;
          cohort = cohort;
          created = made_at;
          updated = updated;
          named = refl;
          once_attempted = refl;
          once_published = refl;
        }))

AllMade-take : (n : ℕ) (events : List Event) → AllMade events → AllMade (take n events)
AllMade-take n events m event k =
    m event (subst (Memᴰ event) (take-append-drop n events) (Memᴰ.append_left (drop n events) k))

AllMade-drop : (n : ℕ) (events : List Event) → AllMade events → AllMade (drop n events)
AllMade-drop n events m event k =
    m event (subst (Memᴰ event) (take-append-drop n events) (Memᴰ.append_right (take n events) k))

pub Validated-IsSound :
    (job_id : JobId) (snapshot : JobSnapshot) (events : List Event) (state : JobState)
    → AllMade events
    → Validated job_id snapshot events state
    → IsSound snapshot
Validated-IsSound job_id snapshot events state m v =
    replay_events-IsSound v.genesis (take snapshot.last_sequence events) snapshot
      (AllMade-take snapshot.last_sequence events m)
      (genesis-IsSound snapshot.job v.genesis v.begun) v.prefix

-- A valid log, extended by an event that replays from its state, is valid with the new state.
pub Validated-snoc :
    (job_id : JobId) (snapshot : JobSnapshot) (events : List Event) (state next : JobState)
    (event : Event)
    → AllMade events
    → Validated job_id snapshot events state
    → replay_events state (event ∷ []) ≡ ok next
    → Validated job_id snapshot (events ++ event ∷ []) next
Validated-snoc job_id snapshot events state next event m v h =
    let n = snapshot.last_sequence in
    record {
      of_job = v.of_job;
      within = omega (arith, v.within, length-append {0} events (event ∷ []));
      genesis = v.genesis;
      begun = v.begun;
      prefix = rw (take-append n events (event ∷ []) v.within) v.prefix;
      checked = v.checked;
      rest = rw (drop-append n events (event ∷ []) v.within) (
          replay_events-append snapshot (drop n events) (event ∷ []) (AllMade-drop n events m)
            (Validated-IsSound job_id snapshot events state m v)
          ∙ rw v.rest h);
    }

-- The state of a valid log is the replay of the whole log from the genesis: the snapshot is a cache.
pub Validated-whole :
    (job_id : JobId) (snapshot : JobSnapshot) (events : List Event) (state : JobState)
    → AllMade events
    → (v : Validated job_id snapshot events state) → replay_events v.genesis events ≡ ok state
Validated-whole job_id snapshot events state m v =
    let n = snapshot.last_sequence in
    subst (λ (log : List Event). replay_events v.genesis log ≡ ok state) (take-append-drop n events)
      (replay_events-append v.genesis (take n events) (drop n events) (AllMade-take n events m)
          (genesis-IsSound snapshot.job v.genesis v.begun)
        ∙ rw v.prefix v.rest)
