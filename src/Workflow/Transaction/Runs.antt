-- ===== src/Workflow/Transaction/Runs.antt =====
-- A run of the store's code against a file system that can fail or stop at every call.
use lookfile.Prelude.{ℕ, Bool, true, false, List, [], ◌∷◌}
use lookfile.Workflow.Transaction.Directory.{Directory}

-- The exceptions: those of _job_store_fs.py, `GenerationExhausted`, `_CleanOutcomeUncertain`
-- and that of an `assert`.
pub data StoreError : Type 0 where
  corrupt_store store_io destination_exists rename_uncertain generation_exhausted clean_uncertain
        assertion_failed :
      StoreError

-- When a call is interrupted: before it has an effect, after `n` bytes of a write, or after it.
pub data Moment : Type 0 where
  before after : Moment
  during : ℕ → Moment

-- What befalls one call: nothing, an error of the operating system, or the end of the process.
pub data Fault : Type 0 where
  fine : Fault
  failing crashing : Moment → Fault

pub data Outcome (A : Type 0) : Type 0 where
  done : A → Outcome A
  raised : StoreError → Outcome A
  crashed : Outcome A

-- The directory, the number of the next file to be made, and what will befall the coming calls: no
-- fault after the last one listed.
pub record World : Type 0 where
  pub directory : Directory
  pub next_inode : ℕ
  pub faults : List Fault

abbrev pub Run : Type 0 → Type 0
Run A = World → Outcome A × World

abbrev pub continue : {A B : Type 0} → Outcome A × World → (A → Run B) → Outcome B × World
continue (done a, w) f = f a w
continue (raised e, w) f = (raised e, w)
continue (crashed, w) f = (crashed, w)

infixl 5 ◌>>=◌
abbrev pub ◌>>=◌ : {A B : Type 0} → Run A → (A → Run B) → Run B
run >>= f = λ w. continue (run w) f

infixl 5 ◌>>◌
abbrev pub ◌>>◌ : {A : Type 0} → Run (Unit {0}) → Run A → Run A
run >> rest = run >>= λ _. rest

abbrev pub pure : {A : Type 0} → A → Run A
pure a = λ w. (done a, w)

abbrev pub raise : {A : Type 0} → StoreError → Run A
raise e = λ w. (raised e, w)

abbrev pub handle : {A : Type 0} → Outcome A × World → (StoreError → Run A) → Outcome A × World
handle (done a, w) handler = (done a, w)
handle (raised e, w) handler = handler e w
handle (crashed, w) handler = (crashed, w)

-- `try: run` with the `except` clauses in the handler, which raises again what they do not name
abbrev pub attempt : {A : Type 0} → Run A → (StoreError → Run A) → Run A
attempt run handler = λ w. handle (run w) handler

abbrev pub branch :
    {A B : Type 0} → Outcome A × World → (StoreError → Run B) → (A → Run B) → Outcome B × World
branch (done a, w) handler rest = rest a w
branch (raised e, w) handler rest = handler e w
branch (crashed, w) handler rest = (crashed, w)

-- The same where every clause of the handler ends the function, and `rest` follows the `try`
abbrev pub try_else : {A B : Type 0} → Run A → (StoreError → Run B) → (A → Run B) → Run B
try_else run handler rest = λ w. branch (run w) handler rest

abbrev pub require : Bool → StoreError → Run (Unit {0})
require true e = pure tt
require false e = raise e

abbrev pub from_outcome : {A : Type 0} → Outcome A → Run A
from_outcome o = λ w. (o, w)

abbrev pub next_fault : List Fault → Fault
next_fault [] = fine
next_fault (fault ∷ faults) = fault

abbrev pub later_faults : List Fault → List Fault
later_faults [] = []
later_faults (fault ∷ faults) = faults

-- The world after a call that was interrupted.
abbrev pub interrupted :
    {A : Type 0} → Moment → (World → A × World) → (ℕ → World → World) → World → World
interrupted before full torn w = w
interrupted after full torn w = (full w).1
interrupted (during n) full torn w = torn n w

abbrev answer : {A : Type 0} → A × World → Outcome A × World
answer (a, w) = (done a, w)

abbrev pub under :
    {A : Type 0} → Fault → StoreError → (World → A × World) → (ℕ → World → World) → Run A
under fine e full torn w = answer (full w)
under (failing moment) e full torn w = (raised e, interrupted moment full torn w)
under (crashing moment) e full torn w = (crashed, interrupted moment full torn w)

-- One call: its whole effect, its effect when a write is torn, and the error that a failure raises.
unfoldable pub call : {A : Type 0} → StoreError → (World → A × World) → (ℕ → World → World) → Run A
call e full torn w =
    under (next_fault w.faults) e full torn (record w { faults = later_faults w.faults })

-- A call that changes nothing.
unfoldable pub observe : {A : Type 0} → StoreError → (World → A) → Run A
observe e f = call e (λ w. (f w, w)) (λ _ w. w)

-- Partial correctness: from a world where `P` holds, a run that returns leaves `Q` of its result,
-- and one that raises or stops leaves `E`.
abbrev pub Ends :
    {A : Type 0} → (A → World → Type 0) → (World → Type 0) → Outcome A × World → Type 0
Ends Q E (done a, w) = Q a w
Ends Q E (raised e, w) = E w
Ends Q E (crashed, w) = E w

pub record Triple {A : Type 0} (P : World → Type 0) (run : Run A) (Q : A → World → Type 0)
    (E : World → Type 0) : Type 0 where
  pub ends : (w : World) → P w → Ends Q E (run w)
