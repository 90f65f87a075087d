-- ===== src/Workflow/Transaction/Triples.antt =====
-- The rules of partial correctness for the runs of Runs.antt, whatever fault befalls each call.
use lookfile.Prelude.{ℕ, ◌≡◌, refl, Bool, true, false, if◌then◌else◌}
use lookfile.Workflow.Transaction.Directory.{Directory}
use lookfile.Workflow.Transaction.Runs.{
  StoreError, before, after, during, Fault, fine, failing, crashing, Outcome, done, raised, crashed,
  World, Run, continue, branch, handle, ◌>>=◌, pure, raise, attempt, try_else, require, next_fault,
  later_faults, under, call, observe, Ends, Triple,
}

-- An assertion on the directory alone.
abbrev pub On : (Directory → Type 0) → World → Type 0
On D w = D w.directory

Ends-map :
    {A : Type 0} {Q R : A → World → Type 0} {E F : World → Type 0} (o : Outcome A × World)
    → ((a : A) (w : World) → Q a w → R a w)
    → ((w : World) → E w → F w)
    → Ends Q E o
    → Ends R F o
Ends-map (done a, w) q e h = q a w h
Ends-map (raised x, w) q e h = e w h
Ends-map (crashed, w) q e h = e w h

pub weaken :
    {A : Type 0} {P P1 : World → Type 0} {run : Run A} {Q R : A → World → Type 0}
    {E F : World → Type 0}
    → ((w : World) → P1 w → P w)
    → ((a : A) (w : World) → Q a w → R a w)
    → ((w : World) → E w → F w)
    → Triple P run Q E
    → Triple P1 run R F
weaken {run} p q e t = record { ends = λ w h. Ends-map (run w) q e (t.ends w (p w h)) }

branch-Ends :
    {A B : Type 0} {Q : A → World → Type 0} {R : B → World → Type 0} {E F : World → Type 0}
    (o : Outcome A × World) {handler : StoreError → Run B} {rest : A → Run B}
    → ((w : World) → E w → F w)
    → ((x : StoreError) → Triple E (handler x) R F)
    → ((a : A) → Triple (Q a) (rest a) R F)
    → Ends Q E o
    → Ends R F (branch o handler rest)
branch-Ends (done a, w) e h r q = (r a).ends w q
branch-Ends (raised x, w) e h r q = (h x).ends w q
branch-Ends (crashed, w) e h r q = e w q

pub try_rule :
    {A B : Type 0} {P : World → Type 0} {run : Run A} {handler : StoreError → Run B}
    {rest : A → Run B} {Q : A → World → Type 0} {R : B → World → Type 0} {E F : World → Type 0}
    → ((w : World) → E w → F w)
    → Triple P run Q E
    → ((x : StoreError) → Triple E (handler x) R F)
    → ((a : A) → Triple (Q a) (rest a) R F)
    → Triple P (try_else run handler rest) R F
try_rule {run} e t h r = record { ends = λ w p. branch-Ends (run w) e h r (t.ends w p) }

handle-Ends :
    {A : Type 0} {Q : A → World → Type 0} {E F : World → Type 0} (o : Outcome A × World)
    {handler : StoreError → Run A}
    → ((w : World) → E w → F w)
    → ((x : StoreError) → Triple E (handler x) Q F)
    → Ends Q E o
    → Ends Q F (handle o handler)
handle-Ends (done a, w) e h q = q
handle-Ends (raised x, w) e h q = (h x).ends w q
handle-Ends (crashed, w) e h q = e w q

pub attempt_rule :
    {A : Type 0} {P : World → Type 0} {run : Run A} {handler : StoreError → Run A}
    {Q : A → World → Type 0} {E F : World → Type 0}
    → ((w : World) → E w → F w)
    → Triple P run Q E
    → ((x : StoreError) → Triple E (handler x) Q F)
    → Triple P (attempt run handler) Q F
attempt_rule {run} e t h = record { ends = λ w p. handle-Ends (run w) e h (t.ends w p) }

continue-Ends :
    {A B : Type 0} {Q : A → World → Type 0} {R : B → World → Type 0} {E : World → Type 0}
    (o : Outcome A × World) {rest : A → Run B}
    → ((a : A) → Triple (Q a) (rest a) R E)
    → Ends Q E o
    → Ends R E (continue o rest)
continue-Ends (done a, w) r q = (r a).ends w q
continue-Ends (raised x, w) r q = q
continue-Ends (crashed, w) r q = q

pub bind :
    {A B : Type 0} {P : World → Type 0} {run : Run A} {rest : A → Run B} {Q : A → World → Type 0}
    {R : B → World → Type 0} {E : World → Type 0}
    → Triple P run Q E
    → ((a : A) → Triple (Q a) (rest a) R E)
    → Triple P (run >>= rest) R E
bind {run} t r = record { ends = λ w p. continue-Ends (run w) r (t.ends w p) }

pub pure_rule :
    {A : Type 0} {P : World → Type 0} {Q : A → World → Type 0} {E : World → Type 0} {a : A}
    → ((w : World) → P w → Q a w)
    → Triple P (pure a) Q E
pure_rule f = record { ends = f }

pub raise_rule :
    {A : Type 0} {P : World → Type 0} {Q : A → World → Type 0} {E : World → Type 0} {x : StoreError}
    → ((w : World) → P w → E w)
    → Triple P (raise x) Q E
raise_rule f = record { ends = f }

pub require_rule :
    {P : World → Type 0} {E : World → Type 0} (b : Bool) (x : StoreError)
    → ((w : World) → P w → E w)
    → Triple P (require b x) (λ _ w. P w × (b ≡ true)) E
require_rule true x f = record { ends = λ w p. (p, refl) }
require_rule false x f = record { ends = f }

-- Both branches of a test, each with what it says of the test
pub if_rule :
    {A : Type 0} {P : World → Type 0} {Q : A → World → Type 0} {E : World → Type 0} (b : Bool)
    {yes_run no_run : Run A}
    → (b ≡ true → Triple P yes_run Q E)
    → (b ≡ false → Triple P no_run Q E)
    → Triple P (if b then yes_run else no_run) Q E
if_rule true f g = f refl
if_rule false f g = g refl

module _ {A : Type 0} (D : Directory → Type 0) (Q : A → World → Type 0) (E : World → Type 0)
    (x : StoreError) (full : World → A × World) (torn : ℕ → World → World) where
  under-Ends :
      (fault : Fault) (w : World)
      → Q (full w).0 (full w).1
      → E w
      → E (full w).1
      → ((n : ℕ) → E (torn n w))
      → Ends Q E (under fault x full torn w)
  under-Ends fine w q e0 e1 en = q
  under-Ends (failing before) w q e0 e1 en = e0
  under-Ends (failing after) w q e0 e1 en = e1
  under-Ends (failing (during n)) w q e0 e1 en = en n
  under-Ends (crashing before) w q e0 e1 en = e0
  under-Ends (crashing after) w q e0 e1 en = e1
  under-Ends (crashing (during n)) w q e0 e1 en = en n

  pub call_rule :
      ((w : World) → On D w → Q (full w).0 (full w).1)
      → ((w : World) → On D w → E w)
      → ((w : World) → On D w → E (full w).1)
      → ((n : ℕ) (w : World) → On D w → E (torn n w))
      → Triple (On D) (call x full torn) Q E
  unfolding call
  call_rule q e0 e1 en = record {
    ends = λ w d.
        let v : World = record w { faults = later_faults w.faults } in
        under-Ends (next_fault w.faults) v (q v d) (e0 v d) (e1 v d) (λ n. en n v d);
  }

pub observe_rule :
    {A : Type 0} (D : Directory → Type 0) (x : StoreError) (f : World → A)
    → Triple (On D) (observe x f) (λ a w. D w.directory × (f w ≡ a)) (On D)
unfolding observe
observe_rule D x f =
    call_rule D (λ a w. D w.directory × (f w ≡ a)) (On D) x (λ w. (f w, w)) (λ _ w. w)
      (λ w d. (d, refl)) (λ w d. d) (λ w d. d) (λ n w d. d)

-- A fact that the precondition gives, and a precondition that never holds
pub with_fact :
    {A : Type 0} {P : World → Type 0} {run : Run A} {Q : A → World → Type 0} {E : World → Type 0}
    {F : Type 0}
    → ((w : World) → P w → F)
    → (F → Triple P run Q E)
    → Triple P run Q E
with_fact f g = record { ends = λ w p. (g (f w p)).ends w p }
