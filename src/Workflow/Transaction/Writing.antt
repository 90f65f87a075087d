-- ===== src/Workflow/Transaction/Writing.antt =====
-- The calls of _job_store_fs.py that the transaction makes.
use lookfile.Prelude.{ℕ, ◌+◌, Bool, true, Option, none, some, nat_eq, option_eq, take}
use lookfile.Workflow.Transaction.Directory.{Bytes, Marker, File, Slots, Place}
use lookfile.Workflow.Transaction.Runs.{
  corrupt_store, store_io, destination_exists, rename_uncertain, World, Run, call, observe, pure,
  raise, require, ◌>>=◌, ◌>>◌,
}

-- The content of a torn write. A marker that is written in part is no marker.
abbrev pub torn_marker : ℕ → Option Marker → Option Marker
torn_marker n marker = none

abbrev pub torn_bytes : ℕ → Bytes → Bytes
torn_bytes n data_bytes = take n data_bytes

module _ {A : Type 0} (place : Place A) where
  -- The file that the slot holds after a write: the same file if there was one.
  abbrev pub rewritten : Option (File A) → ℕ → A → File A
  rewritten none fresh data_content = record { inode = fresh; content = data_content }
  rewritten (some file) fresh data_content = record file { content = data_content }

  abbrev pub put_swap : A → World → World
  put_swap data_content w =
      let slots = place.slots w.directory in
      record w {
        directory =
            place.put
              (record slots { swap = some (rewritten slots.swap w.next_inode data_content) })
              w.directory;
        next_inode = w.next_inode + 1;
      }

  abbrev pub fits_slot : Option (File A) → Bool
  fits_slot none = true
  fits_slot (some file) = place.fits file.content

  -- `write_slot` into the swap slot, with the content that a write of `n` bytes leaves
  unfoldable pub write_slot : (ℕ → A → A) → A → Run ℕ
  write_slot torn data_content w =
      (require (fits_slot (place.slots w.directory).swap) corrupt_store
          >> call store_io
              (λ v. (
                (rewritten (place.slots v.directory).swap v.next_inode data_content).inode,
                put_swap data_content v,
              ))
              (λ n v. put_swap (torn n data_content) v))
        w

  abbrev pub found : Option (File A) → Run ℕ
  found none = raise corrupt_store
  found (some file) = require (place.fits file.content) corrupt_store >> pure file.inode

  -- `inspect_file` under the final name and in the swap slot
  unfoldable pub inspect_final : Run ℕ
  inspect_final = observe corrupt_store (λ w. (place.slots w.directory).final) >>= found

  unfoldable pub inspect_swap : Run ℕ
  inspect_swap = observe corrupt_store (λ w. (place.slots w.directory).swap) >>= found

  abbrev pub exchanged : Slots A → Slots A
  exchanged slots = record { final = slots.swap; swap = slots.final }

  abbrev pub put_slots : Slots A → World → World
  put_slots slots w = record w { directory = place.put slots w.directory }

  abbrev pub exchange_existing : Option (File A) → Option (File A) → Run (Unit {0})
  exchange_existing (some f) (some g) =
      call rename_uncertain (λ v. (tt, put_slots (exchanged (place.slots v.directory)) v))
        (λ _ v. v)
  exchange_existing _ _ = raise rename_uncertain

  -- `rename_exchange` of the swap slot and the final name; without one of the files it fails.
  unfoldable pub rename_exchange : Run (Unit {0})
  rename_exchange w =
      let slots = place.slots w.directory in exchange_existing slots.final slots.swap w

  abbrev pub published : Slots A → Slots A
  published slots = record { final = slots.swap; swap = none }

  abbrev pub move_existing : Option (File A) → Option (File A) → Run (Unit {0})
  move_existing none (some g) =
      call rename_uncertain (λ v. (tt, put_slots (published (place.slots v.directory)) v))
        (λ _ v. v)
  move_existing (some f) _ = raise destination_exists
  move_existing none none = raise rename_uncertain

  -- `rename_noreplace` of the swap slot to the final name
  unfoldable pub rename_noreplace : Run (Unit {0})
  rename_noreplace w = let slots = place.slots w.directory in move_existing slots.final slots.swap w

unfoldable pub fsync_directory : Run (Unit {0})
fsync_directory = observe store_io (λ _. tt)
