-- ===== src/Slots/Processes.antt =====
-- No slot has two owners, whatever the processes of a host do in whatever order.
use wrenn.Prelude.{ℕ, ◌≡◌, ◌≢◌, true, false}
use wrenn.Slots.{Disk, has, is_empty, slot_file}
use wrenn.Slots.Keeps.{Keeps}
use wrenn.Slots.Host.{Process, Host}

-- What a process's turn has to keep, when it may come to own slot `i` and give up others.
record KeepsSlots (h : Host) (p : ℕ) (x : Process) (d : Disk) : Type 0 where
  uses : is_empty x.slots.slots_dir ≡ false
  own_filed : (i : ℕ) → h.contested i ≡ false → x.owned i ≡ true → has (slot_file i) d.names ≡ true
  own_marked : (i : ℕ) → x.owned i ≡ true → (x.slots.in_use i ≡ true) × (x.slots.seeded i ≡ false)
  own_noted : (i : ℕ) → x.slots.seeded i ≡ true → x.slots.in_use i ≡ true
  own_sole :
      (q i : ℕ) → h.contested i ≡ false → p ≢ q → x.owned i ≡ true → (h.processes q).owned i ≡ false
  others_filed :
      (q i : ℕ)
      → h.contested i ≡ false
      → p ≢ q
      → (h.processes q).owned i ≡ true
      → has (slot_file i) d.names ≡ true
