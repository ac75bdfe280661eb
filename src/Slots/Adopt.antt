-- ===== src/Slots/Adopt.antt =====
-- Reserve, Release and SeedFromDir.
use wrenn.Prelude.{
  ℕ, ◌≤◌, ◌<◌, ◌≡◌, ◌≢◌, refl, ◌⊎◌, inl, inr, true, false, ◌&&◌, ◌||◌, not, List, [], ◌∷◌, Option,
  none, some, arith, ltb, Text, text_eq, text_eq→≡, Bool-cases, atoi, atoi-itoa,
}
use wrenn.Slots.{
  Disk, Faults, SlotAllocator, Result, ok, err, out_of_range, already_in_use, claim_slot, has,
  is_empty, last_slot, without, no_free_slots, allocate, Claim, claimed, exists, failed, claim_file,
  slot_file, reserve, release, slot_of, seed_slot, seed_entries, seed_from_dir, settle,
}
use wrenn.Slots.Allocate.{Finds, IsTaken, allocate-Finds}

-- Reserve by cases.
abbrev pub Reserves : SlotAllocator → ℕ → Result (Unit {0}) × SlotAllocator × Disk → Type 0
Reserves a i (ok _, b, d) =
    (1 ≤ i)
    × (i ≤ last_slot)
    × ((a.in_use i ≡ false) ⊎ (a.seeded i ≡ true))
    × (b.in_use i ≡ true)
    × (b.seeded i ≡ false)
    × (b.slots_dir ≡ a.slots_dir)
    × ((j : ℕ) → i ≢ j → (b.in_use j ≡ a.in_use j) × (b.seeded j ≡ a.seeded j))
Reserves a i (err (out_of_range j), b, d) = (j ≡ i) × ((i ≡ 0) ⊎ (last_slot < i)) × (b ≡ a)
Reserves a i (err (already_in_use j), b, d) =
    (j ≡ i) × (a.in_use i ≡ true) × (a.seeded i ≡ false) × (b ≡ a)
Reserves a i (err (claim_slot j), b, d) = (j ≡ i) × (is_empty a.slots_dir ≡ false) × (b ≡ a)
Reserves a i (err _, b, d) = ⊥

settle-Reserves :
    (f : Faults) (a : SlotAllocator) (d : Disk) (i : ℕ) (c : Claim) (e : Disk)
    → 1 ≤ i
    → i ≤ last_slot
    → (a.in_use i && not (a.seeded i)) ≡ false
    → claim_file f a d i ≡ (c, e)
    → Reserves a i (settle a i c e)
unfolding claim_file
settle-Reserves f a d i claimed e lo hi free h =
    (lo, hi, ground arith, ground arith, ground arith, refl, λ j ne. (ground arith, ground arith))
settle-Reserves f a d i exists e lo hi free h =
    (lo, hi, ground arith, ground arith, ground arith, refl, λ j ne. (ground arith, ground arith))
settle-Reserves f a d i failed e lo hi free h = (refl, ground arith, refl)

-- Reserve takes a slot of 1 to 32767 that is not in use in this process or only seeded, and changes
-- no other; each refusal names the slot and its reason, and leaves the allocator as it was.
pub reserve-Reserves :
    (f : Faults) (a : SlotAllocator) (d : Disk) (i : ℕ) → Reserves a i (reserve f a d i)
unfolding reserve
reserve-Reserves f a d i = elim (Bool-cases (ltb i 1 || ltb last_slot i)) [
  | inl out ↦ rw out (refl, ground arith, refl)
  | inr inside ↦ rw inside (elim (Bool-cases (a.in_use i && not (a.seeded i))) [
    | inl busy ↦ rw busy (refl, ground arith, ground arith, refl)
    | inr free ↦ rw free (settle-Reserves f a d i _ _ (ground arith) (ground arith) free refl)
  ])
]

slot_of-slot_file : (i : ℕ) → 1 ≤ i → i ≤ last_slot → slot_of (atoi (slot_file i)) ≡ some i
slot_of-slot_file i lo hi = rw (atoi-itoa i (omega arith)) (ground arith)

seed_slot_keeps :
    (a : SlotAllocator) (o : Option ℕ) (i : ℕ)
    → a.in_use i ≡ true
    → a.seeded i ≡ true
    → ((seed_slot a o).in_use i ≡ true) × ((seed_slot a o).seeded i ≡ true)
seed_slot_keeps a none i u s = (u, s)
seed_slot_keeps a (some j) i u s = (ground arith, ground arith)

seed_entries_keeps :
    (a : SlotAllocator) (es : List Text) (i : ℕ)
    → a.in_use i ≡ true
    → a.seeded i ≡ true
    → ((seed_entries a es).in_use i ≡ true) × ((seed_entries a es).seeded i ≡ true)
unfolding seed_entries
seed_entries_keeps a [] i u s = (u, s)
seed_entries_keeps a (e ∷ es) i u s =
    let (u', s') = seed_slot_keeps a (slot_of (atoi e)) i u s in
    seed_entries_keeps (seed_slot a (slot_of (atoi e))) es i u' s'

seed_entries_claims :
    (a : SlotAllocator) (es : List Text) (i : ℕ)
    → 1 ≤ i
    → i ≤ last_slot
    → has (slot_file i) es ≡ true
    → ((seed_entries a es).in_use i ≡ true) × ((seed_entries a es).seeded i ≡ true)
unfolding seed_entries
seed_entries_claims a [] i lo hi h = absurd (cc)
seed_entries_claims a (e ∷ es) i lo hi h = elim (Bool-cases (text_eq e (slot_file i))) [
  | inl same ↦
      let found : slot_of (atoi e) ≡ some i =
        rw (text_eq→≡ e (slot_file i) same) (slot_of-slot_file i lo hi) in
      seed_entries_keeps (seed_slot a (slot_of (atoi e))) es i (ground arith) (ground arith)
  | inr other ↦ seed_entries_claims (seed_slot a (slot_of (atoi e))) es i lo hi (ground arith)
]

-- After a successful SeedFromDir every slot with a claim file is in use and marked as seeded, so
-- that Allocate passes over it and Reserve may adopt it.
pub seed_from_dir_claims :
    (f : Faults) (a b : SlotAllocator) (d : Disk) (i : ℕ)
    → is_empty a.slots_dir ≡ false
    → d.present ≡ true
    → seed_from_dir f a d ≡ (ok tt, b)
    → 1 ≤ i
    → i ≤ last_slot
    → has (slot_file i) d.names ≡ true
    → (b.in_use i ≡ true) × (b.seeded i ≡ true)
unfolding seed_from_dir
seed_from_dir_claims f a b d i dir here h lo hi file =
    ground (arith, seed_entries_claims a d.names i lo hi file)

has-without_self : (s : Text) (names : List Text) → has s (without s names) ≡ false
has-without_self s [] = refl
has-without_self s (t ∷ ts) = ground (arith, has-without_self s ts)

release_frees :
    (f : Faults) (a : SlotAllocator) (d : Disk) (i : ℕ)
    → f.remove (slot_file i) ≡ false
    → ¬ IsTaken (release f a d i).0 (release f a d i).1 i
unfolding release
release_frees f a d i rm t = ground (arith, has-without_self (slot_file i) d.names)

first_free :
    (a : SlotAllocator) (d : Disk) (i : ℕ)
    → ¬ IsTaken a d i
    → 1 ≤ i
    → i ≤ last_slot
    → (r : Result ℕ × SlotAllocator × Disk) → Finds last_slot 1 a d r
    → ((j : ℕ) → r.0 ≢ err (claim_slot j))
    → (k : ℕ) × (r.0 ≡ ok k) × (k ≤ i)
first_free a d i free lo hi (ok k, b, e) h s = (
  k,
  refl,
  elim (Bool-cases (ltb i k)) [
    | inl lt ↦ absurd (free (h.first i lo (ground arith)))
    | inr ge ↦ ground arith
  ],
)
first_free a d i free lo hi (err no_free_slots, b, e) h s = absurd (free (h i lo (omega arith)))
first_free a d i free lo hi (err (claim_slot j), b, e) h s = absurd (s j refl)
first_free a d i free lo hi (err _, b, e) h s = absurd h

-- A slot whose release removed its claim file is free again: the next Allocate, if it meets no
-- failed claim, hands out this slot or a lower one.
pub release-allocate :
    (f g : Faults) (a : SlotAllocator) (d : Disk) (i : ℕ)
    → f.remove (slot_file i) ≡ false
    → 1 ≤ i
    → i ≤ last_slot
    → ((j : ℕ) → (allocate g (release f a d i).0 (release f a d i).1).0 ≢ err (claim_slot j))
    → (k : ℕ) × ((allocate g (release f a d i).0 (release f a d i).1).0 ≡ ok k) × (k ≤ i)
release-allocate f g a d i rm lo hi sound =
    first_free _ _ i (release_frees f a d i rm) lo hi _ (allocate-Finds g _ _) sound
