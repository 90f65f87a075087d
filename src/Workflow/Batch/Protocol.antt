-- ===== src/Workflow/Batch/Protocol.antt =====
-- The order of the calls of a batch.
pub mod Ordered
use mathlib.Core.List.{map-append, append_assoc}
use lookfile.Prelude.{
  ◌≡◌, refl, sym, ap, ◌∙◌, subst, Bool, true, false, Option, none, some, List, [], ◌∷◌, ◌++◌, map,
  Result, ok, err, Error, refuse_if, ◌>>◌,
}
use lookfile.Domain.Identifiers.{Sha256}
use lookfile.Verification.RuleModels.{RuleResult, ArtifactDecision}
use lookfile.Verification.Reports.{VerificationReport}
use lookfile.Workflow.Batch.Cohort.{
  BatchPlan, BatchRule, ProductionBatchReservation, ProductionBatchTarget, ProductionBatchCandidate,
  FrozenProductionCohort,
}
use lookfile.Workflow.Batch.Run.{
  ProductionBatchPhase, candidates_ready, cohort_frozen, batch_verified, routed, export_staged,
  completed, BatchPublicationReceipt, ProductionBatchResult, Call, record_phase, checkpoint_phase,
  stage_export, commit_export, close_export, Traced, then_on, silent, calling, closing, persist,
  announce, reach, publish, prepare, verify, route_cohort, export_cohort, routed_export,
  judge_cohort, run_frozen, run_atomic_production_batch,
}

-- A call without the hash that it carries
abbrev pub kind : Call → Call
kind (record_phase phase binding) = record_phase phase []
kind (checkpoint_phase phase) = checkpoint_phase phase
kind stage_export = stage_export
kind commit_export = commit_export
kind close_export = close_export

abbrev pub kinds : List Call → List Call
kinds = map kind

-- What a run that returns calls, and what one that raises has called
pub data Follows (full : List Call) {A : Type 0} : Traced A → Type 0 where
  finished : {calls : List Call} {a : A} → kinds calls ≡ full → Follows full (calls, ok a)
  stopped :
      {calls : List Call} {x : Error} (rest : List Call)
      → kinds calls ++ rest ≡ full
      → Follows full (calls, err x)

joined :
    (calls more : List Call) {f g : List Call}
    → kinds calls ≡ f
    → kinds more ≡ g
    → kinds (calls ++ more) ≡ f ++ g
joined calls more e h = map-append kind calls more ∙ cc

part_joined :
    (calls more rest : List Call) {f g : List Call}
    → kinds calls ≡ f
    → kinds more ++ rest ≡ g
    → kinds (calls ++ more) ++ rest ≡ f ++ g
part_joined calls more rest e h =
    ap (λ l. l ++ rest) (map-append kind calls more)
    ∙ append_assoc (kinds calls) (kinds more) rest
    ∙ cc

part_more :
    (calls rest g : List Call) {f : List Call}
    → kinds calls ++ rest ≡ f
    → kinds calls ++ (rest ++ g) ≡ f ++ g
part_more calls rest g e = sym (append_assoc (kinds calls) rest g) ∙ ap (λ l. l ++ g) e

module _ {A : Type 0} where
  resumed :
      (calls : List Call) {f g : List Call} {t : Traced A}
      → kinds calls ≡ f
      → Follows g t
      → Follows (f ++ g) (calls ++ t.0, t.1)
  resumed calls e (finished {calls = more} h) = finished (joined calls more e h)
  resumed calls e (stopped {calls = more} rest h) = stopped rest (part_joined calls more rest e h)

  pub follow :
      {B : Type 0} {f g : List Call} {t : Traced B} (next : B → Traced A)
      → Follows f t
      → ((b : B) → Follows g (next b))
      → Follows (f ++ g) (then_on t next)
  follow next (finished {calls} {a} e) h = resumed calls e (h a)
  follow {g} next (stopped {calls} rest e) h = stopped (rest ++ g) (part_more calls rest g e)

  pub silent-Follows : (r : Result A) → Follows [] (silent r)
  silent-Follows (ok a) = finished refl
  silent-Follows (err x) = stopped [] refl

  pub calling-Follows : (call : Call) (r : Result A) → Follows (kind call ∷ []) (calling call r)
  calling-Follows call (ok a) = finished refl
  calling-Follows call (err x) = stopped [] refl

abbrev pub Journal : Type 0
Journal = Option (ProductionBatchPhase → Sha256 → Result (Unit {0}))

-- The calls of a phase: the journal, if there is one, and the callback.
abbrev pub recorded : Journal → ProductionBatchPhase → List Call
recorded none phase = []
recorded (some record_it) phase = record_phase phase [] ∷ []

abbrev pub reached : Journal → ProductionBatchPhase → List Call
reached journal phase = recorded journal phase ++ checkpoint_phase phase ∷ []

-- The calls up to the staging, those under the guard of `close`, and those after the commit
abbrev pub before_commit : Journal → List Call
before_commit journal =
    reached journal candidates_ready
    ++ (reached journal cohort_frozen
        ++ (reached journal batch_verified ++ (reached journal routed ++ stage_export ∷ [])))

abbrev pub guarded : Journal → List Call
guarded journal = reached journal export_staged ++ commit_export ∷ []

abbrev pub after_commit : Journal → List Call
after_commit journal = reached journal completed

-- The ways in which a run can end: it raises up to the staging; it raises under the guard, and the
-- staged export is closed; it raises after the commit; or it returns.
pub data IsOrdered (before under after : List Call) {A : Type 0} : Traced A → Type 0 where
  not_staged :
      {calls : List Call} {x : Error} (rest : List Call)
      → kinds calls ++ rest ≡ before
      → IsOrdered before under after (calls, err x)
  released :
      {calls : List Call} {x : Error} (done rest : List Call)
      → done ++ rest ≡ under
      → kinds calls ≡ before ++ (done ++ close_export ∷ [])
      → IsOrdered before under after (calls, err x)
  committed :
      {calls : List Call} {x : Error} (done rest : List Call)
      → done ++ rest ≡ after
      → kinds calls ≡ before ++ (under ++ done)
      → IsOrdered before under after (calls, err x)
  returned :
      {calls : List Call} {a : A}
      → kinds calls ≡ before ++ (under ++ after)
      → IsOrdered before under after (calls, ok a)

module _ {A : Type 0} {under after : List Call} where
  delayed :
      (calls : List Call) {f before : List Call} {t : Traced A}
      → kinds calls ≡ f
      → IsOrdered before under after t
      → IsOrdered (f ++ before) under after (calls ++ t.0, t.1)
  delayed calls e (not_staged {calls = more} rest h) =
      not_staged rest (part_joined calls more rest e h)
  delayed calls {f} {before} e (released {calls = more} done rest d h) =
      released done rest d (joined calls more e h ∙ sym (append_assoc f before _))
  delayed calls {f} {before} e (committed {calls = more} done rest d h) =
      committed done rest d (joined calls more e h ∙ sym (append_assoc f before _))
  delayed calls {f} {before} e (returned {calls = more} h) =
      returned (joined calls more e h ∙ sym (append_assoc f before _))

  pub delay :
      {B : Type 0} {f before : List Call} {t : Traced B} (next : B → Traced A)
      → Follows f t
      → ((b : B) → IsOrdered before under after (next b))
      → IsOrdered (f ++ before) under after (then_on t next)
  delay next (finished {calls} {a} e) h = delayed calls e (h a)
  delay {before} next (stopped {calls} rest e) h =
      not_staged (rest ++ before) (part_more calls rest before e)

  ending :
      (calls : List Call) {t : Traced A}
      → kinds calls ≡ under
      → Follows after t
      → IsOrdered [] under after (calls ++ t.0, t.1)
  ending calls e (finished {calls = more} h) = returned (joined calls more e h)
  ending calls e (stopped {calls = more} rest h) =
      committed (kinds more) rest h (joined calls more e refl)

  -- The guard closes what it staged when it raises, and leaves it to what follows otherwise.
  pub guard :
      {B : Type 0} (close : Result (Unit {0})) {t : Traced B} (next : B → Traced A)
      → Follows under t
      → ((b : B) → Follows after (next b))
      → IsOrdered [] under after (then_on (closing close t) next)
  guard close next (finished {calls} {a} e) h = ending calls e (h a)
  guard (ok tt) next (stopped {calls} rest e) h =
      released (kinds calls) rest e (joined calls (close_export ∷ []) refl refl)
  guard (err y) next (stopped {calls} rest e) h =
      released (kinds calls) rest e (joined calls (close_export ∷ []) refl refl)
