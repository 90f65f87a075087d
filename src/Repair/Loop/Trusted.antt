-- ===== src/Repair/Loop/Trusted.antt =====
-- `_trusted_history` accepts the histories that the constructor makes, and no others.
use lookfile.Prelude.{
  ◌≡◌, ◌↔◌, refl, sym, ap, ◌∙◌, subst, arith, Bool, true, false, ◌||◌, List, Eq, ◌!=◌, nat_eq,
  list_eq, ==→eq, ==_refl, not, ok, ok_inj, >>=-eq-ok, after_guard, true_of_not,
}
use lookfile.Domain.Identifiers.{Sha256}
use lookfile.Repair.Comparison.{request_eq}
use lookfile.Repair.Requests.{GenerationRequest}
use lookfile.Repair.Policies.{state_key_eq}
use lookfile.Repair.History.{InitialAttempt, RepairAttempt, RepairHistory, repair_history}
use lookfile.Repair.History.Sound.{repair_history-IsSound}
use lookfile.Repair.Loop.{trusted_history}

module _ {Binding Material : Type 0} ⦃d : Eq Binding⦄ ⦃m : Eq Material⦄
    (request_hash generation_fingerprint : GenerationRequest Binding Material → Sha256) where
  -- The constructor makes this history of its attempts.
  abbrev pub IsMade : RepairHistory Binding Material → Type 0
  IsMade h =
      repair_history request_hash generation_fingerprint h.initial_attempt h.repair_attempts ≡ ok h

  pub repair_history-IsMade :
      (initial : InitialAttempt Binding Material) (attempts : List (RepairAttempt Binding Material))
      (h : RepairHistory Binding Material)
      → repair_history request_hash generation_fingerprint initial attempts ≡ ok h
      → IsMade h
  repair_history-IsMade initial attempts h m =
      let (_, _, _, _, a, b, _, _, _, _, _) =
        repair_history-IsSound request_hash generation_fingerprint initial attempts h m in
      subst (λ as'. repair_history request_hash generation_fingerprint h.initial_attempt as' ≡ ok h)
        (sym b)
        (subst (λ i. repair_history request_hash generation_fingerprint i attempts ≡ ok h) (sym a)
          m)

  -- A history is trusted exactly when the constructor makes it of its attempts, and then it comes back
  -- unchanged.
  pub trusted_history_iff :
      (value trusted : RepairHistory Binding Material)
      → (trusted_history request_hash generation_fingerprint value ≡ ok trusted)
        ↔ ((trusted ≡ value) × IsMade value)
  unfolding trusted_history
  trusted_history_iff value trusted = (
    λ h.
        let (rebuilt, made, h1) =
          >>=-eq-ok
            (repair_history request_hash generation_fingerprint value.initial_attempt
              value.repair_attempts)
            _ h in
        let (counts, h2) =
          after_guard
            (value.rounds != rebuilt.rounds
              || value.consecutive_no_improvement != rebuilt.consecutive_no_improvement)
            _ _ h1 in
        let (states, same) =
          after_guard (value.seen_state_keys != rebuilt.seen_state_keys) _ _ h2 in
        let (_, _, _, _, a, b, _, _, _, _, _) =
          repair_history-IsSound request_hash generation_fingerprint value.initial_attempt
            value.repair_attempts rebuilt made in
        let (rounds, idle) = both_same _ _ counts in
        let equal =
          same_history rebuilt value a b (sym (==→eq value.rounds rebuilt.rounds rounds))
            (sym (==→eq value.consecutive_no_improvement rebuilt.consecutive_no_improvement idle))
            (sym (==→eq value.seen_state_keys rebuilt.seen_state_keys (true_of_not _ states))) in
        (sym (ok_inj same) ∙ equal, made ∙ ap ok equal),
    λ (equal, made).
        rw
          (
            made,
            ==_refl value.rounds,
            ==_refl value.consecutive_no_improvement,
            ==_refl value.seen_state_keys,
            equal,
          )
          refl,
  )
    where
      both_same : (a b : Bool) → (not a || not b) ≡ false → (a ≡ true) × (b ≡ true)
      both_same a b h = ground arith

      same_history :
          (x y : RepairHistory Binding Material)
          → x.initial_attempt ≡ y.initial_attempt
          → x.repair_attempts ≡ y.repair_attempts
          → x.rounds ≡ y.rounds
          → x.consecutive_no_improvement ≡ y.consecutive_no_improvement
          → x.seen_state_keys ≡ y.seen_state_keys
          → x ≡ y
      same_history x y a b c p q = cc
