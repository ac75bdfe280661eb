-- ===== src/Slots.antt =====
-- pkg/network/allocator.go: the slot allocator and the directory of claim files that the processes
-- of a host share. The mutex makes each method one step. Maps with the value true are functions to
-- Bool; a slot index is never negative.
pub mod Maps
pub mod Allocate
pub mod Keeps
pub mod Host
pub mod Adopt
pub mod Processes
mod Tests
use wrenn.Prelude.{
  ℕ, zero, suc, ◌+◌, ◌≡◌, Bool, true, false, ◌&&◌, ◌||◌, not, List, [], ◌∷◌, Option, none, some,
  leb, ltb, ◌==◌, if◌then◌else◌, Text, text_eq, ℤ, pos, negsuc, itoa, atoi,
}

-- The slots directory on disk: whether it exists, and the names of its entries.
pub record Disk : Type 0 where
  pub present : Bool
  pub names : List Text

-- Which calls of the operating system fail, other than by finding a claim file in place.
pub record Faults : Type 0 where
  pub mkdir : Bool
  pub create : Text → Bool
  pub close : Text → Bool
  pub remove : Text → Bool
  pub read_dir : Bool

abbrev pub no_faults : Faults
no_faults = record {
  mkdir = false;
  create = λ _. false;
  close = λ _. false;
  remove = λ _. false;
  read_dir = false;
}

pub record SlotAllocator : Type 0 where
  pub in_use : ℕ → Bool
  pub seeded : ℕ → Bool
  pub slots_dir : Text

pub data Error : Type 0 where
  no_free_slots read_slots_dir : Error
  claim_slot out_of_range already_in_use : ℕ → Error

pub data Result {ℓ} (A : Type ℓ) : Type ℓ where
  ok : A → Result A
  err : Error → Result A

-- What opening a claim file with O_CREATE|O_EXCL comes to.
pub data Claim : Type 0 where
  claimed exists failed : Claim

abbrev pub update : (ℕ → Bool) → ℕ → Bool → ℕ → Bool
update m i v j = if i == j then v else m j

abbrev pub has : Text → List Text → Bool
has s [] = false
has s (t ∷ ts) = text_eq t s || has s ts

abbrev pub without : Text → List Text → List Text
without s [] = []
without s (t ∷ ts) = let rest = without s ts in if text_eq t s then rest else t ∷ rest

abbrev pub is_empty : Text → Bool
is_empty [] = true
is_empty (c ∷ cs) = false

abbrev pub last_slot : ℕ
last_slot = 32767

unfoldable pub new_slot_allocator : Text → SlotAllocator
new_slot_allocator dir = record { in_use = λ _. false; seeded = λ _. false; slots_dir = dir }

-- slotFile: the entry's name within the slots directory.
abbrev pub slot_file : ℕ → Text
slot_file i = itoa i

pub create_excl : Faults → Text → Disk → Claim × Disk
create_excl f name d =
    let made = record d { names = name ∷ d.names } in
    if f.create name
    then (failed, d)
    else if has name d.names
    then (exists, d)
    else if f.close name
    then (failed, made)
    else (claimed, made)

pub claim_file : Faults → SlotAllocator → Disk → ℕ → Claim × Disk
unfolding create_excl
claim_file f a d i =
    if is_empty a.slots_dir
    then (claimed, d)
    else if f.mkdir
    then (failed, d)
    else create_excl f (slot_file i) (record d { present = true })

abbrev pub mark : SlotAllocator → ℕ → SlotAllocator
mark a i = record a { in_use = update a.in_use i true }

-- The loop of Allocate with the rounds that are left, at index i.
pub scan : Faults → ℕ → ℕ → SlotAllocator → Disk → Result ℕ × SlotAllocator × Disk
scan f zero i a d = (err no_free_slots, a, d)
scan f (suc n) i a d = elim (a.in_use i) [
  | true ↦ scan f n (i + 1) a d
  | false ↦
      let (claim, d') = claim_file f a d i in
      elim claim [
        | claimed ↦ (ok i, mark a i, d')
        | exists ↦ scan f n (i + 1) (mark a i) d'
        | failed ↦ (err (claim_slot i), a, d')
      ]
]

pub allocate : Faults → SlotAllocator → Disk → Result ℕ × SlotAllocator × Disk
allocate f a d = scan f last_slot 1 a d

pub release : Faults → SlotAllocator → Disk → ℕ → SlotAllocator × Disk
release f a d i =
    let a' = record a { in_use = update a.in_use i false; seeded = update a.seeded i false } in
    let gone = record d { names = without (slot_file i) d.names } in
    (a', if is_empty a.slots_dir then d else if f.remove (slot_file i) then d else gone)

abbrev pub adopt : SlotAllocator → ℕ → SlotAllocator
adopt a i = record a { in_use = update a.in_use i true; seeded = update a.seeded i false }

abbrev pub settle : SlotAllocator → ℕ → Claim → Disk → Result (Unit {0}) × SlotAllocator × Disk
settle a i claimed d = (ok tt, adopt a i, d)
settle a i exists d = (ok tt, adopt a i, d)
settle a i failed d = (err (claim_slot i), a, d)

pub reserve : Faults → SlotAllocator → Disk → ℕ → Result (Unit {0}) × SlotAllocator × Disk
reserve f a d i =
    if ltb i 1 || ltb last_slot i
    then (err (out_of_range i), a, d)
    else if a.in_use i && not (a.seeded i)
    then (err (already_in_use i), a, d)
    else let (claim, d') = claim_file f a d i in settle a i claim d'

-- The slot that an entry's name stands for, if it stands for one.
abbrev pub slot_of : Option ℤ → Option ℕ
slot_of none = none
slot_of (some (negsuc n)) = none
slot_of (some (pos n)) = if leb 1 n && leb n last_slot then some n else none

abbrev pub seed_slot : SlotAllocator → Option ℕ → SlotAllocator
seed_slot a none = a
seed_slot a (some i) = record a { in_use = update a.in_use i true; seeded = update a.seeded i true }

pub seed_entries : SlotAllocator → List Text → SlotAllocator
seed_entries a [] = a
seed_entries a (e ∷ es) = seed_entries (seed_slot a (slot_of (atoi e))) es

pub seed_from_dir : Faults → SlotAllocator → Disk → Result (Unit {0}) × SlotAllocator
seed_from_dir f a d =
    if is_empty a.slots_dir
    then (ok tt, a)
    else if not d.present
    then (ok tt, a)
    else if f.read_dir
    then (err read_slots_dir, a)
    else (ok tt, seed_entries a d.names)
