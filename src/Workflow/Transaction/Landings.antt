-- ===== src/Workflow/Transaction/Landings.antt =====
-- `_exchange_expected` and `_publish_file`: what was written to the swap slot is under the final
-- name when they return, and an assertion that changes to the name keep holds wherever they stop.
use lookfile.Prelude.{ℕ, Option, none, some, ◌&&◌, ◌==◌, nat_eq, if◌then◌else◌}
use lookfile.Workflow.Transaction.Directory.{Bytes, Directory, Place}
use lookfile.Workflow.Transaction.Runs.{
  StoreError, corrupt_store, store_io, destination_exists, rename_uncertain, generation_exhausted,
  clean_uncertain, assertion_failed, ◌>>◌, pure, raise, Triple,
}
use lookfile.Workflow.Transaction.Triples.{
  On, weaken, attempt_rule, bind, pure_rule, require_rule, if_rule,
}
use lookfile.Workflow.Transaction.Writing.{torn_bytes}
use lookfile.Workflow.Transaction.Publishing.{
  rollback_if_stable, exchange_known, exchange_expected, on_publish, publish_by, publish_file,
}
use lookfile.Workflow.Transaction.Places.{
  raising, IsPlace, IsStable, Swapped, Landed, writing, glance_final, glance_swap, exchanging,
  rolling_back, moving, confirming,
}

module _ {A : Type 0} (place : Place A) (law : IsPlace place) (D : Directory → Type 0)
    (stable : IsStable place D) (a : A) where
  checking :
      (candidate expected published retired : ℕ)
      → Triple
          (On (Landed place D a))
          (if published == candidate && retired == expected
            then pure tt
            else (rollback_if_stable place published retired >> raise corrupt_store))
          (λ _. On (Landed place D a))
          (On D)
  checking candidate expected published retired =
      if_rule (published == candidate && retired == expected) (λ _. pure_rule (λ w h. h))
        (λ _.
          bind
            (weaken (λ w h. h.0) (λ _ w h. h) (λ w e. e)
              (rolling_back place D stable published retired))
            (λ _. raising D (λ _. On (Landed place D a)) corrupt_store))

  pub exchange_lands :
      (candidate expected : ℕ)
      → Triple
          (On (Swapped place D a))
          (exchange_known place candidate expected)
          (λ _. On (Landed place D a))
          (On D)
  unfolding exchange_known
  exchange_lands candidate expected =
      bind (weaken (λ w h. h) (λ _ w h. h) (λ w h. h.0) (glance_final place (Swapped place D a)))
        (λ i.
          bind
            (weaken (λ w h. h) (λ _ w h. h.0) (λ w h. h)
              (require_rule (i == expected) corrupt_store (λ w h. h.0)))
            (λ _. bind (exchanging place law D stable a) (λ _.
              bind
                (weaken (λ w h. h) (λ _ w h. h) (λ w h. h.0)
                  (glance_final place (Landed place D a)))
                (λ j.
                  bind
                    (weaken (λ w h. h) (λ _ w h. h) (λ w h. h.0)
                      (glance_swap place (Landed place D a)))
                    (λ k. checking candidate expected j k)))))

  pub expected_lands :
      (candidate : ℕ) (expected : Option ℕ)
      → Triple
          (On (Swapped place D a))
          (exchange_expected place candidate expected)
          (λ _. On (Landed place D a))
          (On D)
  expected_lands candidate none =
      weaken (λ w h. h.0) (λ _ w h. h) (λ w e. e)
        (raising D (λ _. On (Landed place D a)) corrupt_store)
  expected_lands candidate (some expected) = exchange_lands candidate expected

module _ (place : Place Bytes) (law : IsPlace place) (D : Directory → Type 0)
    (stable : IsStable place D) (b : Bytes) where
  answering : (x : StoreError) → Triple (On D) (on_publish x) (λ _. On (Landed place D b)) (On D)
  answering destination_exists = raising D _ corrupt_store
  answering corrupt_store = raising D _ corrupt_store
  answering store_io = raising D _ store_io
  answering rename_uncertain = raising D _ rename_uncertain
  answering generation_exhausted = raising D _ generation_exhausted
  answering clean_uncertain = raising D _ clean_uncertain
  answering assertion_failed = raising D _ assertion_failed

  publishing :
      (candidate : ℕ) (expected : Option ℕ)
      → Triple
          (On (Swapped place D b))
          (publish_by place candidate expected)
          (λ _. On (Landed place D b))
          (On D)
  publishing candidate (some expected) = exchange_lands place law D stable b candidate expected
  publishing candidate none =
      bind
        (attempt_rule (λ w e. e) (moving place law D D (λ d h. h) (λ d h. stable _ d h) b)
          answering)
        (λ _.
          weaken (λ w h. h) (λ _ w h. h) (λ w h. h.0)
            (confirming place (Landed place D b) candidate))

  pub publish_lands :
      (expected : Option ℕ)
      → Triple (On D) (publish_file place b expected) (λ _. On (Landed place D b)) (On D)
  unfolding publish_file
  publish_lands expected =
      bind (writing place law D (λ s d h. stable _ d h) torn_bytes b)
        (λ candidate. publishing candidate expected)
