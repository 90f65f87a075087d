-- ===== src/Workflow/StateMachine/Fresh.antt =====
-- The ids that an event brings to a log are new, and timestamps are ordered.
use lookfile.Prelude.{
  ◌≡◌, refl, true, false, ◌||◌, List, [], ◌∷◌, ◌++◌, arith, ok, after_guard, ok_inj,
  refuse_if-eq-ok, all, contains, has_duplicates, list_eq, nat_eq, ◌==◌, ==_sym, subst, Eq,
  true_of_not,
}
use lookfile.Domain.Text.{Text, text_lt}
use lookfile.Domain.Identifiers.{AttemptId, is_identifier}
use lookfile.Workflow.JobModels.{
  EventType, job_status_eq, attempt_started, repair_step, export_published, event_type_eq,
}
use lookfile.Workflow.Events.{Payload, attempt_began, repaired, published, check_payload}
use lookfile.Workflow.StateMachine.{append_new, fresh_attempts, fresh_bundles}

-- The order of timestamps is transitive, in the form in which the code tests it.
pub text_lt_trans : (a b c : Text) → text_lt b a ≡ false → text_lt c b ≡ false → text_lt c a ≡ false
text_lt_trans [] b c h k = refl
text_lt_trans (x ∷ a) [] c h k = absurd (cc)
text_lt_trans (x ∷ a) (y ∷ b) [] h k = absurd (cc)
text_lt_trans (x ∷ a) (y ∷ b) (z ∷ c) h k = ground (arith, text_lt_trans a b c)

module _ {A : Type 0} ⦃e : Eq A⦄ where
  contains-snoc : (a b : A) (xs : List A) → contains a (xs ++ b ∷ []) ≡ (contains a xs || a == b)
  contains-snoc a b [] = ground arith
  contains-snoc a b (x ∷ xs) = ground (arith, contains-snoc a b xs)

  -- Appending what is not there keeps a list free of duplicates.
  has_duplicates-snoc :
      (a : A) (xs : List A)
      → has_duplicates xs ≡ false
      → contains a xs ≡ false
      → has_duplicates (xs ++ a ∷ []) ≡ false
  has_duplicates-snoc a [] h c = refl
  has_duplicates-snoc a (x ∷ xs) h c =
      ground (arith, contains-snoc x a xs, ==_sym a x, has_duplicates-snoc a xs)

all-snoc :
    (a : Text) (xs : List Text)
    → all is_identifier xs ≡ true
    → is_identifier a ≡ true
    → all is_identifier (xs ++ a ∷ []) ≡ true
all-snoc a [] h k = rw k refl
all-snoc a (x ∷ xs) h k = ground (arith, all-snoc a xs)

append_new-valid :
    (value : Text) (seen new : List Text)
    → has_duplicates seen ≡ false
    → append_new value seen ≡ ok new
    → has_duplicates new ≡ false
append_new-valid value seen new u h =
    let (fresh, e) = after_guard _ _ _ h in
    subst (λ xs. has_duplicates xs ≡ false) (ok_inj e) (has_duplicates-snoc value seen u fresh)

pub fresh_attempts-valid :
    (e : EventType) (payload : Payload) (attempts new : List AttemptId)
    → has_duplicates attempts ≡ false
    → fresh_attempts e payload attempts ≡ ok new
    → has_duplicates new ≡ false
fresh_attempts-valid attempt_started (attempt_began p) attempts new u h =
    append_new-valid p.attempt_id attempts new u h
fresh_attempts-valid repair_step (repaired p) attempts new u h =
    append_new-valid p.child_attempt_id attempts new u h
fresh_attempts-valid attempt_started _ attempts new u h = absurd (cc)
fresh_attempts-valid repair_step _ attempts new u h = absurd (cc)
fresh_attempts-valid _ payload attempts new u h =
    subst (λ xs. has_duplicates xs ≡ false) (ok_inj h) u

pub fresh_bundles-valid :
    (e : EventType) (payload : Payload) (bundles new : List Text)
    → check_payload payload ≡ ok tt
    → has_duplicates bundles ≡ false
    → all is_identifier bundles ≡ true
    → fresh_bundles e payload bundles ≡ ok new
    → (has_duplicates new ≡ false) × (all is_identifier new ≡ true)
unfolding check_payload
fresh_bundles-valid export_published (published p) bundles new m u n h =
    let (_, e) = after_guard _ _ _ h in
    (
      append_new-valid p.bundle_name bundles new u h,
      subst (λ xs. all is_identifier xs ≡ true) (ok_inj e)
          (all-snoc p.bundle_name bundles n (true_of_not _ (refuse_if-eq-ok _ _ m))),
    )
fresh_bundles-valid export_published _ bundles new m u n h = absurd (cc)
fresh_bundles-valid _ payload bundles new m u n h = (
  subst (λ xs. has_duplicates xs ≡ false) (ok_inj h) u,
  subst (λ xs. all is_identifier xs ≡ true) (ok_inj h) n,
)
