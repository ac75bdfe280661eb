-- ===== src/Slots/Tests.antt =====
-- Runs of the allocator, and the theorems of this component at concrete inputs.
use wrenn.Prelude.{ℕ, ◌≤◌, ◌≡◌, refl, true, false, [], ◌∷◌, arith, Text, codes, itoa, atoi}
use wrenn.Slots.{
  Disk, no_faults, SlotAllocator, ok, last_slot, scan, allocate, release, reserve, seed_from_dir,
  seed_entries, claim_file, create_excl,
}
use wrenn.Slots.Allocate.{Finds, allocate-Finds}
use wrenn.Slots.Host.{Host, start, after_allocate}
use wrenn.Slots.Adopt.{Reserves, reserve-Reserves, seed_from_dir_claims, release-allocate}

abbrev slots_dir : Text
slots_dir = codes "/run/slots"

-- Slot 1 is claimed by a file that was there before; `notes` is no slot.
abbrev found : Disk
found = record { present = true; names = codes "1" ∷ codes "notes" ∷ [] }

abbrev fresh : SlotAllocator
fresh = record { in_use = λ i. false; seeded = λ i. false; slots_dir = slots_dir }

second_slot : (allocate no_faults fresh found).0 ≡ ok 2
unfolding allocate scan claim_file create_excl itoa
second_slot = refl

allocate-Finds_example : Finds last_slot 1 fresh found (allocate no_faults fresh found)
allocate-Finds_example = allocate-Finds no_faults fresh found

-- Process 0 allocates, then process 7.
abbrev first_host : Host
first_host = start slots_dir found

abbrev second_host : Host
second_host =
    after_allocate first_host 0 (allocate no_faults (first_host.processes 0).slots first_host.disk)

abbrev third_host : Host
third_host =
    after_allocate second_host 7
      (allocate no_faults (second_host.processes 7).slots second_host.disk)

reserve-Reserves_example : Reserves fresh 5 (reserve no_faults fresh found 5)
reserve-Reserves_example = reserve-Reserves no_faults fresh found 5

seed_from_dir_claims_example :
    ((seed_from_dir no_faults fresh found).1.in_use 1 ≡ true)
    × ((seed_from_dir no_faults fresh found).1.seeded 1 ≡ true)
unfolding seed_from_dir seed_entries itoa atoi
seed_from_dir_claims_example =
    seed_from_dir_claims no_faults fresh _ found 1 refl refl refl (omega arith) (omega arith) refl

release-allocate_example :
    (k : ℕ) × ((allocate no_faults
        (release no_faults fresh found 1).0
        (release no_faults fresh found 1).1).0
      ≡ ok k)
    × (k ≤ 1)
unfolding allocate scan claim_file create_excl release itoa
release-allocate_example =
    release-allocate no_faults no_faults fresh found 1 refl (omega arith) (omega arith) (λ j e. cc)
