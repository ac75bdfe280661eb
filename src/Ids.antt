-- ===== src/Ids.antt =====
-- pkg/id: identifiers as 16 bytes, their base-36 text with a prefix for each kind, and the reserved
-- template IDs. A text is a list of code points, a byte a number below 256.
pub mod Digits
pub mod Bytes
pub mod Base36
pub mod Roundtrip
pub mod Reserved
mod Tests
use wrenn.Prelude.{
  ℕ, zero, suc, ◌+◌, ◌-◌, ◌*◌, ◌/◌, ◌%◌, ◌≤◌, ◌<◌, ◌≡◌, Bool, true, false, not, ◌&&◌, ◌||◌, List,
  [], ◌∷◌, ◌++◌, Option, none, some, leb, ltb, ◌==◌, if◌then◌else◌, length, take, get_elem?, Text,
  codes, has_prefix, trim_prefix, byte_length,
}

-- pgtype.UUID.
pub record Uuid : Type 0 where
  pub bytes : List ℕ
  pub valid : Bool

pub data Error : Type 0 where
  wrong_prefix wrong_length bad_character : Error

-- `panics` is a run-time panic, which no caller of the package sees as an error.
pub data Result {ℓ} (V : Type ℓ) : Type ℓ where
  panics : Result V
  err : Error → Result V
  ok : V → Result V

infixl 5 ◌>>=◌
abbrev pub ◌>>=◌ {ℓ κ} : {V : Type ℓ} {W : Type κ} → Result V → (V → Result W) → Result W
m >>= next = elim m [ panics ↦ panics | err e ↦ err e | ok v ↦ next v ]

abbrev pub base36_alphabet : Text
base36_alphabet = codes "0123456789abcdefghijklmnopqrstuvwxyz"

abbrev pub base36_id_len : ℕ
base36_id_len = 25

-- big.Int.SetBytes and Bytes: the number of big-endian bytes, and its shortest bytes.
unfoldable pub set_bytes : ℕ → List ℕ → ℕ
set_bytes n [] = n
set_bytes n (b ∷ bs) = set_bytes (n * 256 + b) bs

unfoldable pub big_bytes_onto : ℕ → ℕ → List ℕ → List ℕ
big_bytes_onto zero n rest = rest
big_bytes_onto (suc fuel) n rest =
    let more = big_bytes_onto fuel (n / 256) (n % 256 ∷ rest) in if n == 0 then rest else more

-- Each round divides by 256, so one more unit of fuel than the number is enough.
unfoldable pub big_bytes : ℕ → List ℕ
unfolding big_bytes_onto
big_bytes n = big_bytes_onto (suc n) n []

abbrev pub char_at : Text → ℕ → ℕ
char_at [] i = 0
char_at (c ∷ cs) zero = c
char_at (c ∷ cs) (suc i) = char_at cs i

-- strings.IndexRune, from position `i`.
abbrev pub index_from : ℕ → Text → ℕ → Option ℕ
index_from i [] c = none
index_from i (a ∷ as') c = let rest = index_from (suc i) as' c in if a == c then some i else rest

unfoldable pub char36 : ℕ → ℕ
char36 d = char_at base36_alphabet d

unfoldable pub index36 : ℕ → Option ℕ
index36 c = index_from 0 base36_alphabet c

-- The loop of UUIDToBase36 with the positions that are left, before the text written so far.
unfoldable pub base36_onto : ℕ → ℕ → Text → Text
base36_onto zero n rest = rest
base36_onto (suc k) n rest = base36_onto k (n / 36) (char36 (n % 36) ∷ rest)

unfoldable pub uuid_to_base36 : List ℕ → Text
unfolding base36_onto set_bytes
uuid_to_base36 b = base36_onto base36_id_len (set_bytes 0 b) []

unfoldable pub read_base36 : ℕ → Text → Result ℕ
read_base36 n [] = ok n
read_base36 n (c ∷ cs) = elim (index36 c) [
  | none ↦ err bad_character
  | some i ↦ read_base36 (n * 36 + i) cs
]

abbrev pub zeros : ℕ → List ℕ
zeros zero = []
zeros (suc k) = 0 ∷ zeros k

-- copy(out[16-len(b):], b) on an array of 16 zero bytes.
abbrev pub right_align : List ℕ → Result (List ℕ)
right_align b = if leb (length b) 16 then ok (zeros (16 - length b) ++ b) else panics

unfoldable pub base36_to_uuid : Text → Result (List ℕ)
unfolding read_base36 big_bytes
base36_to_uuid s =
    if byte_length s == base36_id_len
    then (do n ← read_base36 0 s; right_align (big_bytes n))
    else err wrong_length

unfoldable pub format_uuid : Text → Uuid → Text
unfolding uuid_to_base36
format_uuid prefix id = prefix ++ uuid_to_base36 id.bytes

unfoldable pub parse_uuid : Text → Text → Result Uuid
parse_uuid prefix s =
    if has_prefix s prefix
    then (do b ← base36_to_uuid (trim_prefix s prefix); ok (record { bytes = b; valid = true }))
    else err wrong_prefix

abbrev pub prefix_sandbox : Text
prefix_sandbox = codes "cl-"

abbrev pub prefix_volume : Text
prefix_volume = codes "vol-"

abbrev pub format_sandbox_id : Uuid → Text
format_sandbox_id = format_uuid prefix_sandbox

abbrev pub parse_sandbox_id : Text → Result Uuid
parse_sandbox_id = parse_uuid prefix_sandbox

abbrev pub format_volume_id : Uuid → Text
format_volume_id = format_uuid prefix_volume

abbrev pub parse_volume_id : Text → Result Uuid
parse_volume_id = parse_uuid prefix_volume

unfoldable pub default_volume_mount_path : Uuid → Text
default_volume_mount_path v = codes "/mnt/" ++ format_volume_id v

-- binary.BigEndian.PutUint64 into the last eight bytes, and Uint64 of eight bytes.
unfoldable pub put_uint64 : ℕ → ℕ → List ℕ → List ℕ
put_uint64 zero n rest = rest
put_uint64 (suc k) n rest = put_uint64 k (n / 256) (n % 256 ∷ rest)

unfoldable pub template_id : ℕ → Uuid
unfolding put_uint64
template_id n = record { bytes = zeros 8 ++ put_uint64 8 n []; valid = true }

abbrev pub drop_bytes : ℕ → List ℕ → List ℕ
drop_bytes zero b = b
drop_bytes (suc n) [] = []
drop_bytes (suc n) (x ∷ b) = drop_bytes n b

unfoldable pub is_reserved_template_id : Uuid → Bool
unfolding set_bytes
is_reserved_template_id t =
    let hi = set_bytes 0 (take 8 t.bytes) in
    let lo = set_bytes 0 (drop_bytes 8 t.bytes) in hi == 0 && leb lo 1024

abbrev pub platform_team_id : Uuid
platform_team_id = record { bytes = zeros 16; valid = true }
