-- ===== src/Slots/Keeps.antt =====
-- What the allocator's methods leave alone, whatever they return.
use wrenn.Prelude.{
  ℕ, zero, suc, ◌+◌, ◌≡◌, refl, ◌∙◌, inl, inr, true, List, [], ◌∷◌, Option, none, some, arith, Text,
  Bool-cases, atoi,
}
use wrenn.Slots.{
  Disk, Faults, SlotAllocator, Result, ok, err, claim_slot, Claim, claimed, exists, failed, has,
  last_slot, is_empty, claim_file, mark, scan, allocate, slot_of, seed_slot, seed_entries,
  seed_from_dir,
}
use wrenn.Slots.Maps.{claim_file_keeps}

pub record Keeps (a : SlotAllocator) (d : Disk) (b : SlotAllocator) (e : Disk) : Type 0 where
  pub same_dir : b.slots_dir ≡ a.slots_dir
  pub same_seeded : b.seeded ≡ a.seeded
  pub still_used : (j : ℕ) → a.in_use j ≡ true → b.in_use j ≡ true
  pub still_filed : (s : Text) → has s d.names ≡ true → has s e.names ≡ true

Keeps-refl : (a : SlotAllocator) (d : Disk) → Keeps a d a d
Keeps-refl a d = record {
  same_dir = refl;
  same_seeded = refl;
  still_used = λ j h. h;
  still_filed = λ s h. h;
}

Keeps-trans : {a b c : SlotAllocator} {d e g : Disk} → Keeps a d b e → Keeps b e c g → Keeps a d c g
Keeps-trans k l = record {
  same_dir = l.same_dir ∙ k.same_dir;
  same_seeded = l.same_seeded ∙ k.same_seeded;
  still_used = λ j h. l.still_used j (k.still_used j h);
  still_filed = λ s h. l.still_filed s (k.still_filed s h);
}

claim_file-Keeps :
    (f : Faults) (a : SlotAllocator) (d : Disk) (i : ℕ) → Keeps a d a (claim_file f a d i).1
claim_file-Keeps f a d i = record {
  same_dir = refl;
  same_seeded = refl;
  still_used = λ j h. h;
  still_filed = claim_file_keeps f a d i;
}

mark-Keeps : (a : SlotAllocator) (d : Disk) (i : ℕ) → Keeps a d (mark a i) d
mark-Keeps a d i = record {
  same_dir = refl;
  same_seeded = refl;
  still_used = λ j h. ground arith;
  still_filed = λ s h. h;
}

claim-Keeps :
    (f : Faults) (n i : ℕ) (a : SlotAllocator) (d : Disk) (c : Claim)
    → Keeps (mark a i) d (scan f n (i + 1) (mark a i) d).1 (scan f n (i + 1) (mark a i) d).2
    → let r : Result ℕ × SlotAllocator × Disk = elim c [
      | claimed ↦ (ok i, mark a i, d)
      | exists ↦ scan f n (i + 1) (mark a i) d
      | failed ↦ (err (claim_slot i), a, d)
    ] in
      Keeps a d r.1 r.2
claim-Keeps f n i a d claimed k = mark-Keeps a d i
claim-Keeps f n i a d exists k = Keeps-trans (mark-Keeps a d i) k
claim-Keeps f n i a d failed k = Keeps-refl a d

scan-Keeps :
    (f : Faults) (n i : ℕ) (a : SlotAllocator) (d : Disk)
    → Keeps a d (scan f n i a d).1 (scan f n i a d).2
unfolding scan
scan-Keeps f zero i a d = Keeps-refl a d
scan-Keeps f (suc n) i a d = elim (Bool-cases (a.in_use i)) [
  | inl used ↦ rw (used, scan) (scan-Keeps f n (i + 1) a d)
  | inr free ↦
      rw (free, scan)
        (Keeps-trans (claim_file-Keeps f a d i) (
          claim-Keeps f n i a (claim_file f a d i).1 (claim_file f a d i).0
            (scan-Keeps f n (i + 1) (mark a i) (claim_file f a d i).1)))
]

pub allocate-Keeps :
    (f : Faults) (a : SlotAllocator) (d : Disk) → Keeps a d (allocate f a d).1 (allocate f a d).2
unfolding allocate
allocate-Keeps f a d = scan-Keeps f last_slot 1 a d

-- Seeded slots count as used.
abbrev pub IsNoted : SlotAllocator → Type 0
IsNoted a = (i : ℕ) → a.seeded i ≡ true → a.in_use i ≡ true

seed_slot-IsNoted : (a : SlotAllocator) (o : Option ℕ) → IsNoted a → IsNoted (seed_slot a o)
seed_slot-IsNoted a none v i h = v i h
seed_slot-IsNoted a (some j) v i h = ground (arith, v i)

seed_entries-IsNoted :
    (a : SlotAllocator) (es : List Text)
    → IsNoted a
    → IsNoted (seed_entries a es) × ((seed_entries a es).slots_dir ≡ a.slots_dir)
unfolding seed_entries
seed_entries-IsNoted a [] v = (v, refl)
seed_entries-IsNoted a (e ∷ es) v =
    let rest = seed_entries-IsNoted (seed_slot a (slot_of (atoi e))) es (seed_slot-IsNoted a _ v) in
    (rest.0, rest.1 ∙ seed_slot_dir a (slot_of (atoi e)))
  where
    seed_slot_dir : (a : SlotAllocator) (o : Option ℕ) → (seed_slot a o).slots_dir ≡ a.slots_dir
    seed_slot_dir a none = refl
    seed_slot_dir a (some j) = refl

pub seed_from_dir-IsNoted :
    (f : Faults) (a : SlotAllocator) (d : Disk)
    → IsNoted a
    → IsNoted (seed_from_dir f a d).1 × ((seed_from_dir f a d).1.slots_dir ≡ a.slots_dir)
unfolding seed_from_dir
seed_from_dir-IsNoted f a d v = elim (Bool-cases (is_empty a.slots_dir)) [
  | inl e ↦ rw e (v, refl)
  | inr e ↦ rw e (elim (Bool-cases d.present) [
    | inl here ↦ rw here (elim (Bool-cases f.read_dir) [
      | inl bad ↦ rw bad (v, refl)
      | inr good ↦ rw good (seed_entries-IsNoted a d.names v)
    ])
    | inr absent ↦ rw absent (v, refl)
  ])
]
