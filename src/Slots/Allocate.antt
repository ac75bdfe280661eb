-- ===== src/Slots/Allocate.antt =====
-- What Allocate returns, on every branch.
use wrenn.Prelude.{
  ℕ, zero, suc, ◌+◌, ◌≤◌, ◌<◌, ◌≡◌, ◌≢◌, refl, subst, ◌∙◌, ◌==◌, ◌⊎◌, inl, inr, true, false, ◌∷◌,
  arith, Bool-cases, ==_iff,
}
use wrenn.Slots.{
  Disk, Faults, SlotAllocator, Result, ok, err, no_free_slots, claim_slot, Claim, claimed, exists,
  failed, has, is_empty, last_slot, claim_file, slot_file, mark, scan, allocate,
}
use wrenn.Slots.Maps.{claim_file-claimed, claim_file_exists, claim_file_memory}

-- A slot that this process counts as used, or that has a claim file on disk.
abbrev pub IsTaken : SlotAllocator → Disk → ℕ → Type 0
IsTaken a d j =
    (a.in_use j ≡ true) ⊎ ((is_empty a.slots_dir ≡ false) × (has (slot_file j) d.names ≡ true))

-- Slot `k` is handed out from the `n` slots that begin at `i`.
pub record IsGrant (n i : ℕ) (a : SlotAllocator) (d : Disk) (k : ℕ) (a' : SlotAllocator) (d' : Disk)
    : Type 0 where
  pub in_range : (i ≤ k) × (k < i + n)
  pub free : a.in_use k ≡ false
  pub used : a'.in_use k ≡ true
  pub keeps : (j : ℕ) → a.in_use j ≡ true → a'.in_use j ≡ true
  pub marks : (j : ℕ) → a'.in_use j ≡ true → (j ≡ k) ⊎ IsTaken a d j
  pub same_dir : a'.slots_dir ≡ a.slots_dir
  pub same_seeded : a'.seeded ≡ a.seeded
  pub on_disk :
      is_empty a.slots_dir ≡ false
      → (has (slot_file k) d.names ≡ false) × (d'.names ≡ slot_file k ∷ d.names)
  pub in_memory : is_empty a.slots_dir ≡ true → d'.names ≡ d.names
  pub first : (j : ℕ) → i ≤ j → j < k → IsTaken a d j

-- What each outcome of a search through the `n` slots from `i` stands for.
abbrev pub Finds : ℕ → ℕ → SlotAllocator → Disk → Result ℕ × SlotAllocator × Disk → Type 0
Finds n i a d (ok k, a', d') = IsGrant n i a d k a' d'
Finds n i a d (err no_free_slots, a', d') = (j : ℕ) → i ≤ j → j < i + n → IsTaken a d j
Finds n i a d (err (claim_slot k), a', d') =
    ((i ≤ k) × (k < i + n))
    × (a.in_use k ≡ false)
    × (is_empty a.slots_dir ≡ false)
    × ((j : ℕ) → i ≤ j → j < k → IsTaken a d j)
Finds n i a d (err _, a', d') = ⊥

-- The state after slot `i` was passed over.
record IsPassed (i : ℕ) (a : SlotAllocator) (d : Disk) (b : SlotAllocator) (e : Disk) : Type 0 where
  taken : IsTaken a d i
  later : (j : ℕ) → i ≢ j → b.in_use j ≡ a.in_use j
  here : a.in_use i ≡ true → b.in_use i ≡ true
  slots_dir : b.slots_dir ≡ a.slots_dir
  seeded : b.seeded ≡ a.seeded
  names : e.names ≡ d.names

module _ (i : ℕ) (a : SlotAllocator) (d : Disk) (b : SlotAllocator) (e : Disk)
    (p : IsPassed i a d b e) where
  IsTaken-before : (j : ℕ) → i ≢ j → IsTaken b e j → IsTaken a d j
  IsTaken-before j ne t = ground (arith, p.later j ne, p.slots_dir, p.names)

  IsTaken-from :
      (k j : ℕ) → ((j : ℕ) → i + 1 ≤ j → j < k → IsTaken b e j) → i ≤ j → j < k → IsTaken a d j
  IsTaken-from k j h le lt = elim (Bool-cases (i == j)) [
    | inl same ↦ subst (IsTaken a d) ((==_iff i j).0 same) p.taken
    | inr other ↦ IsTaken-before j (ground arith) (h j (ground arith) lt)
  ]

  still_used : (j : ℕ) → a.in_use j ≡ true → b.in_use j ≡ true
  still_used j h = elim (Bool-cases (i == j)) [
    | inl same ↦ subst (λ k. a.in_use k ≡ true → b.in_use k ≡ true) ((==_iff i j).0 same) p.here h
    | inr other ↦ p.later j (ground arith) ∙ h
  ]

  Finds-passed :
      (n : ℕ) (r : Result ℕ × SlotAllocator × Disk) → Finds n (i + 1) b e r → Finds (suc n) i a d r
  Finds-passed n (ok k, a', d') g = record {
    in_range = omega (arith, g.in_range);
    free = ground (arith, p.later k, g.free, g.in_range);
    used = g.used;
    keeps = λ j h. g.keeps j (still_used j h);
    marks = λ j h. elim (Bool-cases (i == j)) [
      | inl same ↦ inr (subst (IsTaken a d) ((==_iff i j).0 same) p.taken)
      | inr other ↦ elim (g.marks j h) [
        | inl e ↦ inl e
        | inr t ↦ inr (IsTaken-before j (ground arith) t)
      ]
    ];
    same_dir = g.same_dir ∙ p.slots_dir;
    same_seeded = g.same_seeded ∙ p.seeded;
    on_disk = λ h. let t = g.on_disk (ground (arith, p.slots_dir)) in ground (arith, t, p.names);
    in_memory = λ h. g.in_memory (ground (arith, p.slots_dir)) ∙ p.names;
    first = λ j le lt. IsTaken-from k j g.first le lt;
  }
  Finds-passed n (err no_free_slots, a', d') h =
      λ j le lt. IsTaken-from (i + suc n) j (λ m le' lt'. h m le' (omega arith)) le lt
  Finds-passed n (err (claim_slot k), a', d') (r, free, dir, h) = (
    omega arith,
    ground (arith, p.later k),
    ground (arith, p.slots_dir),
    λ j le lt. IsTaken-from k j h le lt,
  )
  Finds-passed n (err _, a', d') h = h

-- What one claim at a slot that is not in use decides.
Finds-claim :
    (f : Faults) (n i : ℕ) (a : SlotAllocator) (d : Disk) (c : Claim) (d' : Disk)
    → a.in_use i ≡ false
    → claim_file f a d i ≡ (c, d')
    → (c ≡ exists → Finds n (i + 1) (mark a i) d' (scan f n (i + 1) (mark a i) d'))
    → Finds (suc n) i a d (elim c [
      | claimed ↦ (ok i, mark a i, d')
      | exists ↦ scan f n (i + 1) (mark a i) d'
      | failed ↦ (err (claim_slot i), a, d')
    ])
Finds-claim f n i a d claimed d' h e rest = record {
  in_range = omega arith;
  free = h;
  used = ground arith;
  keeps = λ j t. ground arith;
  marks = λ j t. ground arith;
  same_dir = refl;
  same_seeded = refl;
  on_disk = λ t. ground (arith, claim_file-claimed f a d i t);
  in_memory = λ t. ground (arith, claim_file_memory f a d i t);
  first = λ j le lt. absurd (omega arith);
}
Finds-claim f n i a d exists d' h e rest =
    Finds-passed i a d (mark a i) d'
      (record {
        taken = inr (ground (arith, claim_file_exists f a d i));
        later = λ j ne. ground arith;
        here = λ t. ground arith;
        slots_dir = refl;
        seeded = refl;
        names = ground (arith, claim_file_exists f a d i);
      })
      n (scan f n (i + 1) (mark a i) d') (rest refl)
Finds-claim f n i a d failed d' h e rest =
    (omega arith, h, ground (arith, claim_file_memory f a d i), λ j le lt. absurd (omega arith))

scan-Finds : (f : Faults) (n i : ℕ) (a : SlotAllocator) (d : Disk) → Finds n i a d (scan f n i a d)
unfolding scan
scan-Finds f zero i a d = λ j le lt. absurd (omega arith)
scan-Finds f (suc n) i a d = elim (Bool-cases (a.in_use i)) [
  | inl used ↦
      rw (used, scan)
        (Finds-passed i a d a d
          (record {
            taken = inl used;
            later = λ j ne. refl;
            here = λ t. t;
            slots_dir = refl;
            seeded = refl;
            names = refl;
          })
          n (scan f n (i + 1) a d) (scan-Finds f n (i + 1) a d))
  | inr free ↦
      rw (free, scan)
        (Finds-claim f n i a d (claim_file f a d i).0 (claim_file f a d i).1 free refl
          (λ _. scan-Finds f n (i + 1) (mark a i) (claim_file f a d i).1))
]

-- Allocate returns the first slot from 1 to 32767 that is neither used in this process nor claimed
-- on disk, marks it and, with a slots directory, adds its claim file and no other. It reports that
-- no slot is free only when all of them are taken, and a failed claim only at a free slot.
pub allocate-Finds :
    (f : Faults) (a : SlotAllocator) (d : Disk) → Finds last_slot 1 a d (allocate f a d)
unfolding allocate
allocate-Finds f a d = scan-Finds f last_slot 1 a d
