-- ===== src/Slots/Maps.antt =====
-- Entries of the slots directory, and one claim on it.
use wrenn.Prelude.{
  ℕ, ◌≡◌, ◌≢◌, refl, inl, inr, true, false, List, [], ◌∷◌, arith, Text, text_eq, text_eq_iff,
  Bool-cases, itoa, itoa-injective,
}
use wrenn.Slots.{
  Disk, Faults, SlotAllocator, claimed, exists, has, without, is_empty, claim_file, slot_file,
}

pub has-without :
    (s t : Text) (names : List Text) → text_eq s t ≡ false → has t (without s names) ≡ has t names
has-without s t [] h = refl
has-without s t (x ∷ xs) h =
    ground (arith, text_eq_iff x s, text_eq_iff x t, text_eq_iff s t, has-without s t xs)

pub slot_file_ne : (i j : ℕ) → i ≢ j → text_eq (slot_file i) (slot_file j) ≡ false
slot_file_ne i j h = elim (Bool-cases (text_eq (itoa i) (itoa j))) [
  | inl e ↦ absurd (h (itoa-injective i j ((text_eq_iff _ _).0 e)))
  | inr e ↦ e
]

-- A claim with a directory succeeds only where there was no file, and leaves one more file.
pub claim_file-claimed :
    (f : Faults) (a : SlotAllocator) (d : Disk) (i : ℕ)
    → is_empty a.slots_dir ≡ false
    → (claim_file f a d i).0 ≡ claimed
    → (has (slot_file i) d.names ≡ false) × ((claim_file f a d i).1.names ≡ slot_file i ∷ d.names)
unfolding claim_file
claim_file-claimed f a d i h e = ground arith

-- A claim removes no file.
pub claim_file_keeps :
    (f : Faults) (a : SlotAllocator) (d : Disk) (i : ℕ) (s : Text)
    → has s d.names ≡ true
    → has s (claim_file f a d i).1.names ≡ true
unfolding claim_file
claim_file_keeps f a d i s h = ground arith

-- A claim that finds a file in place changes no entry.
pub claim_file_exists :
    (f : Faults) (a : SlotAllocator) (d : Disk) (i : ℕ)
    → (claim_file f a d i).0 ≡ exists
    → (is_empty a.slots_dir ≡ false)
      × (has (slot_file i) d.names ≡ true)
      × ((claim_file f a d i).1.names ≡ d.names)
unfolding claim_file
claim_file_exists f a d i e = ground arith

-- With no directory a claim touches nothing on disk.
pub claim_file_memory :
    (f : Faults) (a : SlotAllocator) (d : Disk) (i : ℕ)
    → is_empty a.slots_dir ≡ true
    → claim_file f a d i ≡ (claimed, d)
unfolding claim_file
claim_file_memory f a d i h = ground arith
