-- ===== src/Slots/Host.antt =====
-- Several processes of one host, each with an allocator of its own over one slots directory.
use wrenn.Prelude.{ℕ, ◌≡◌, ◌≢◌, ◌==◌, Bool, true, false, Text, if◌then◌else◌}
use wrenn.Slots.{
  Disk, Faults, SlotAllocator, Result, ok, err, has, update, is_empty, slot_file, allocate, release,
  reserve, seed_from_dir, new_slot_allocator,
}
use wrenn.Slots.Keeps.{IsNoted}

-- An allocator with the slots that sandboxes of its process hold.
pub record Process : Type 0 where
  pub slots : SlotAllocator
  pub owned : ℕ → Bool

-- `contested` marks the slots for which a process called Reserve while another owned them.
pub record Host : Type 0 where
  pub disk : Disk
  pub contested : ℕ → Bool
  pub processes : ℕ → Process

abbrev pub with_process : Host → ℕ → Process → Disk → Host
with_process h p x d = record h { disk = d; processes = λ q. if p == q then x else h.processes q }

abbrev pub contest : ℕ → Host → Host
contest i h = record h { contested = update h.contested i true }

-- What a process makes of a call of Allocate and of one of Reserve.
abbrev pub after_allocate : Host → ℕ → Result ℕ × SlotAllocator × Disk → Host
after_allocate h p (ok i, a, d) =
    with_process h p (record { slots = a; owned = update (h.processes p).owned i true }) d
after_allocate h p (err e, a, d) =
    with_process h p (record { slots = a; owned = (h.processes p).owned }) d

abbrev pub after_reserve : Host → ℕ → ℕ → Result (Unit {0}) × SlotAllocator × Disk → Host
after_reserve h p i (ok _, a, d) =
    with_process h p (record { slots = a; owned = update (h.processes p).owned i true }) d
after_reserve h p i (err e, a, d) =
    with_process h p (record { slots = a; owned = (h.processes p).owned }) d

-- One call by one process. A process releases slots that it owns; it reserves any slot, and where the
-- other processes are not known to be without it the slot counts as contested from then on; it seeds
-- before it owns any; and it may start anew at any time, with an empty allocator.
pub data Step (h : Host) : Host → Type 0 where
  allocates :
      (p : ℕ) (f : Faults) → Step h (after_allocate h p (allocate f (h.processes p).slots h.disk))
  releases :
      (p : ℕ) (f : Faults) (i : ℕ)
      → (h.processes p).owned i ≡ true
      → Step h (
          with_process h p
            (record {
              slots = (release f (h.processes p).slots h.disk i).0;
              owned = update (h.processes p).owned i false;
            })
            (release f (h.processes p).slots h.disk i).1)
  reserves :
      (p : ℕ) (f : Faults) (i : ℕ)
      → ((q : ℕ) → p ≢ q → (h.processes q).owned i ≡ false)
      → Step h (after_reserve h p i (reserve f (h.processes p).slots h.disk i))
  contests :
      (p : ℕ) (f : Faults) (i : ℕ)
      → Step h (after_reserve (contest i h) p i (reserve f (h.processes p).slots h.disk i))
  seeds :
      (p : ℕ) (f : Faults)
      → ((i : ℕ) → (h.processes p).owned i ≡ false)
      → Step h (
          with_process h p
            (record {
              slots = (seed_from_dir f (h.processes p).slots h.disk).1;
              owned = (h.processes p).owned;
            })
            h.disk)
  restarts :
      (p : ℕ)
      → Step h (
          with_process h p
            (record {
              slots = new_slot_allocator (h.processes p).slots.slots_dir;
              owned = λ _. false;
            })
            h.disk)

pub data Reaches (h : Host) : Host → Type 0 where
  here : Reaches h h
  next : {g k : Host} → Reaches h g → Step g k → Reaches h k

-- Processes that have just started, over a slots directory as it is found.
abbrev pub start : Text → Disk → Host
start dir d = record {
  disk = d;
  contested = λ i. false;
  processes = λ p. record { slots = new_slot_allocator dir; owned = λ i. false };
}

-- Every process uses the slots directory; a slot that is owned is marked in the owner's allocator; and
-- one that is not contested has its claim file while it is owned, and has not two owners.
pub record IsExclusive (h : Host) : Type 0 where
  pub shared : (p : ℕ) → is_empty (h.processes p).slots.slots_dir ≡ false
  pub filed :
      (p i : ℕ)
      → h.contested i ≡ false
      → (h.processes p).owned i ≡ true
      → has (slot_file i) h.disk.names ≡ true
  pub marked :
      (p i : ℕ)
      → (h.processes p).owned i ≡ true
      → ((h.processes p).slots.in_use i ≡ true) × ((h.processes p).slots.seeded i ≡ false)
  pub noted : (p : ℕ) → IsNoted (h.processes p).slots
  pub sole :
      (p q i : ℕ)
      → h.contested i ≡ false
      → (h.processes p).owned i ≡ true
      → (h.processes q).owned i ≡ true
      → p ≡ q
