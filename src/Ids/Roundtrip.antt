-- ===== src/Ids/Roundtrip.antt =====
-- An identifier's text and back.
use wrenn.Prelude.{
  ℕ, ◌+◌, ◌≤◌, ◌<◌, ◌≡◌, ◌≢◌, ◌^◌, refl, sym, ap, subst, ◌∙◌, inl, inr, true, List, [], ◌∷◌, ◌++◌,
  none, some, arith, ◌==◌, length, Text, Bool-cases, Option-cases, byte_length, has_prefix,
  drop_prefix, has_prefix-append, drop_prefix-append, append_nil, ==_iff,
}
use wrenn.Ids.{
  Uuid, Result, ok, err, panics, set_bytes, big_bytes, uuid_to_base36, right_align, base36_to_uuid,
  format_uuid, parse_uuid, wrong_length, bad_character, ◌>>=◌, char36, index36,
}
use wrenn.Ids.Digits
use wrenn.Ids.Bytes.{
  IsUuid, write256, write256-IsUuid, set_bytes-write256, write256-set_bytes, set_bytes_bound,
  right_align-big_bytes,
}
use wrenn.Ids.Base36.{
  write36, read36, base36_onto-write36, read_base36-read36, byte_length-write36, length-read36,
  index36-char36, char36-index36,
}

uuid_to_base36-write36 : (b : List ℕ) → uuid_to_base36 b ≡ write36 25 (set_bytes 0 b) []
unfolding uuid_to_base36
uuid_to_base36-write36 b = base36_onto-write36 25 (set_bytes 0 b) []

-- What base36ToUUID makes of a text, in one line for each outcome.
abbrev pub Decodes : Text → Result (List ℕ) → Type 0
Decodes s (ok b) =
    (n : ℕ) × (byte_length s ≡ 25) × (read36 0 s ≡ some n) × (n < 256 ^ 16) × (b ≡ write256 16 n [])
Decodes s panics = (n : ℕ) × (byte_length s ≡ 25) × (read36 0 s ≡ some n) × (256 ^ 16 ≤ n)
Decodes s (err wrong_length) = byte_length s ≢ 25
Decodes s (err bad_character) = (byte_length s ≡ 25) × (read36 0 s ≡ none)
Decodes s (err _) = ⊥

decode_value :
    (s : Text) (n : ℕ)
    → byte_length s ≡ 25
    → read36 0 s ≡ some n
    → Decodes s (right_align (big_bytes n))
decode_value s n size e = elim (right_align-big_bytes n) [
  | inl (small, r) ↦ rw r (n, size, e, small, refl)
  | inr (large, r) ↦ rw r (n, size, e, large)
]

base36_to_uuid-Decodes : (s : Text) → Decodes s (base36_to_uuid s)
unfolding base36_to_uuid
base36_to_uuid-Decodes s = elim (Bool-cases (byte_length s == 25)) [
  | inl size ↦
      rw (size, read_base36-read36 0 s)
        (elim (Option-cases (read36 0 s)) [
          | inl e ↦ rw e ((==_iff _ _).0 size, e)
          | inr (n, e) ↦ rw e (decode_value s n ((==_iff _ _).0 size) e)
        ])
  | inr other ↦ rw other (ground arith)
]

decode_written : (n : ℕ) → n < 256 ^ 16 → read36 0 (write36 25 n []) ≡ some n
unfolding Digits.read_onto
decode_written n h =
    Digits.read_onto-write_onto 36 char36 index36 (omega arith) index36-char36 char36-index36 25 n
      [] (omega (arith, h))

align_small : (n : ℕ) → n < 256 ^ 16 → right_align (big_bytes n) ≡ ok (write256 16 n [])
align_small n h = elim (right_align-big_bytes n) [
  | inl (small, r) ↦ r
  | inr (large, r) ↦ absurd (omega (arith, h, large))
]

decodes_small :
    (s : Text) (n : ℕ)
    → byte_length s ≡ 25
    → read36 0 s ≡ some n
    → n < 256 ^ 16
    → base36_to_uuid s ≡ ok (write256 16 n [])
unfolding base36_to_uuid
decodes_small s n size e h = rw (size, read_base36-read36 0 s, e) (align_small n h)

decodes_large :
    (s : Text) (n : ℕ)
    → byte_length s ≡ 25
    → read36 0 s ≡ some n
    → 256 ^ 16 ≤ n
    → base36_to_uuid s ≡ panics
unfolding base36_to_uuid
decodes_large s n size e h =
    rw (size, read_base36-read36 0 s, e)
      (elim (right_align-big_bytes n) [
        | inl (small, r) ↦ absurd (omega (arith, h, small))
        | inr (large, r) ↦ r
      ])

base36_to_uuid-uuid_to_base36 : (b : List ℕ) → IsUuid b → base36_to_uuid (uuid_to_base36 b) ≡ ok b
base36_to_uuid-uuid_to_base36 b h =
    let n = set_bytes 0 b in
    let bound = set_bytes_bound b h in
    rw (uuid_to_base36-write36 b) (
      decodes_small (write36 25 n []) n (byte_length-write36 n) (decode_written n bound) bound
      ∙ ap ok (write256-set_bytes b h))

-- The text of a valid identifier, under any prefix, parses to that identifier.
pub parse_uuid-format_uuid :
    (prefix : Text) (b : List ℕ)
    → IsUuid b
    → parse_uuid prefix (format_uuid prefix (record { bytes = b; valid = true }))
      ≡ ok (record { bytes = b; valid = true })
unfolding parse_uuid format_uuid
parse_uuid-format_uuid prefix b h =
    rw
      (
        has_prefix-append prefix (uuid_to_base36 b),
        drop_prefix-append prefix (uuid_to_base36 b),
        base36_to_uuid-uuid_to_base36 b h,
      )
      refl

ok_injective : {a b : List ℕ} → ok a ≡ ok b → a ≡ b
ok_injective e = cc

ok_ne_panics : {b : List ℕ} → panics ≢ ok b
ok_ne_panics e = cc

decoded_number :
    (s : Text) (b : List ℕ)
    → base36_to_uuid s ≡ ok b
    → (n : ℕ) × (byte_length s ≡ 25)
      × (read36 0 s ≡ some n)
      × (n < 256 ^ 16)
      × (b ≡ write256 16 n [])
decoded_number s b h = subst (Decodes s) h (base36_to_uuid-Decodes s)

write36-none : (t : Text) → write36 0 0 t ≡ t
unfolding Digits.write_onto
write36-none t = refl

-- Only one text decodes to given bytes: the one UUIDToBase36 writes.
uuid_to_base36-base36_to_uuid :
    (s : Text) (b : List ℕ) → base36_to_uuid s ≡ ok b → (uuid_to_base36 b ≡ s) × IsUuid b
uuid_to_base36-base36_to_uuid s b h =
    let (n, size, value, small, bytes) = decoded_number s b h in
    let count : length s + 0 ≡ 25 = omega (arith, size, length-read36 s n value) in
    let written : write36 (length s + 0) n [] ≡ s ++ [] =
      Digits.write_onto-read_onto 36 char36 index36 (omega arith) index36-char36 char36-index36 s 0
        0 n [] value
      ∙ write36-none (s ++ []) in
    rw bytes (
      (uuid_to_base36-write36 (write256 16 n [])
          ∙ (rw (set_bytes-write256 n small)
              (ap (λ k. write36 k n []) (sym count) ∙ (written ∙ append_nil s)))),
      write256-IsUuid n,
    )

prefix_kept : (s p : Text) → has_prefix s p ≡ true → p ++ drop_prefix s p ≡ s
prefix_kept s [] h = refl
prefix_kept [] (p ∷ ps) h = absurd (ground arith)
prefix_kept (c ∷ cs) (p ∷ ps) h = ground (arith, prefix_kept cs ps)

-- A text that parses is the text of the identifier it parses to, which is valid and has sixteen
-- bytes.
pub format_uuid-parse_uuid :
    (prefix s : Text) (id : Uuid)
    → parse_uuid prefix s ≡ ok id
    → (format_uuid prefix id ≡ s) × (id.valid ≡ true) × IsUuid id.bytes
unfolding parse_uuid format_uuid
format_uuid-parse_uuid prefix s id h = elim (Bool-cases (has_prefix s prefix)) [
  | inl e ↦ decoded e (base36_to_uuid (drop_prefix s prefix)) refl (rw e at h)
  | inr e ↦ absurd (ground arith)
]
  where
    decoded :
        has_prefix s prefix ≡ true
        → (r : Result (List ℕ)) → base36_to_uuid (drop_prefix s prefix) ≡ r
        → (r >>= (λ b. ok (record { bytes = b; valid = true }))) ≡ ok id
        → (prefix ++ uuid_to_base36 id.bytes ≡ s) × (id.valid ≡ true) × IsUuid id.bytes
    decoded e (ok b) r same =
        let (text, sixteen) = uuid_to_base36-base36_to_uuid (drop_prefix s prefix) b r in
        let id_is : record { bytes = b; valid = true } ≡ id = cc in
        rw (← id_is) (ap (λ t. prefix ++ t) text ∙ prefix_kept s prefix e, refl, sixteen)
    decoded e (err x) r same = absurd (ground arith)
    decoded e panics r same = absurd (ground arith)

-- A text with the prefix and 25 base-36 digits whose value is 2^128 or more makes the parser panic.
pub parse_uuid_panics :
    (prefix digits : Text) (n : ℕ)
    → byte_length digits ≡ 25
    → read36 0 digits ≡ some n
    → 256 ^ 16 ≤ n
    → parse_uuid prefix (prefix ++ digits) ≡ panics
unfolding parse_uuid
parse_uuid_panics prefix digits n size value large =
    rw
      (
        has_prefix-append prefix digits,
        drop_prefix-append prefix digits,
        decodes_large digits n size value large,
      )
      refl
