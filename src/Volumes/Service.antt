-- ===== src/Volumes/Service.antt =====
-- pkg/service/volume.go: creating, resolving and deleting volumes.
use wrenn.Prelude.{
  ℕ, ◌*◌, Bool, not, ◌++◌, Option, none, some, ltb, if◌then◌else◌, ℤ, pos, negsuc, Text, is_nil,
  has_prefix, trim_space, Outcome, err, ok,
}
use wrenn.Ids
use wrenn.Ids.{Uuid, uuid_to_base36, parse_volume_id, prefix_volume}
use wrenn.Validate
use wrenn.Validate.{volume_name, volume_name_prefix}
use wrenn.Volumes.{Ident, Volume, Db, DbError, no_rows, unique_violation}
use wrenn.Volumes.Statements.{
  insert_volume, get_volume_by_team, get_volume_by_team_and_name, begin_volume_delete,
  abort_volume_delete, delete_volume_row,
}

-- The errors of pkg/apperr that these calls return, without their text.
pub data Error : Type 0 where
  invalid_request validation_failed volume_not_found volume_in_use : Error
  volume_host_mismatch volume_name_taken host_not_found internal : Error

-- A call ends with an error, or in a run-time panic.
pub data Stop : Type 0 where
  fails : Error → Stop
  panics : Stop

abbrev pub Result : Type 0 → Type 0
Result = Outcome Stop

abbrev pub fail {ℓ} : {D : Type ℓ} {V : Type 0} → Error → D → Result V × D
fail e d = (err (fails e), d)

abbrev pub min_volume_size_mb : ℕ
min_volume_size_mb = 100

abbrev pub default_max_volume_size_mb : ℕ
default_max_volume_size_mb = 20 * 1024

unfoldable pub max_size_mb : ℕ → ℕ
max_size_mb configured = if ltb 0 configured then configured else default_max_volume_size_mb

abbrev pub inserted : Outcome DbError Volume × Db → Result Volume × Db
inserted (ok v, d) = (ok v, d)
inserted (err unique_violation, d) = fail volume_name_taken d
inserted (err _, d) = fail internal d

-- The volume is named after its identifier when no name is given.
abbrev pub name_or_id : Text → Ident → Text
name_or_id name id =
    if is_nil (trim_space name) then volume_name_prefix ++ uuid_to_base36 id else name

abbrev pub create_sized : Ident → Text → ℕ → Ident → Db → Result Volume × Db
create_sized team name size id d = elim (volume_name (name_or_id name id)) [
  | err _ ↦ fail validation_failed d
  | ok full ↦ inserted (insert_volume id team full size d)
]

-- `id` is the identifier that the call draws.
unfoldable pub create : ℕ → Uuid → Text → ℤ → Ident → Db → Result Volume × Db
unfolding max_size_mb
create configured team name size id d =
    if not team.valid then fail invalid_request d else elim size [
      | negsuc n ↦ fail invalid_request d
      | pos n ↦
          if ltb n min_volume_size_mb
          then fail invalid_request d
          else if ltb (max_size_mb configured) n
          then fail invalid_request d
          else create_sized team.bytes name n id d
    ]

abbrev pub or_not_found : Outcome DbError Volume × Db → Result Volume × Db
or_not_found (ok v, d) = (ok v, d)
or_not_found (err _, d) = fail volume_not_found d

unfoldable pub get : Ident → Ident → Db → Result Volume × Db
get id team d = or_not_found (get_volume_by_team id team d)

abbrev pub resolve_id : Ident → Ids.Result Uuid → Db → Result Volume × Db
unfolding get
resolve_id team (Ids.ok id) d = get id.bytes team d
resolve_id team (Ids.err _) d = fail invalid_request d
resolve_id team Ids.panics d = (err panics, d)

abbrev pub find_named : Ident → Outcome Validate.Error Text → Db → Result Volume × Db
find_named team (err _) d = fail invalid_request d
find_named team (ok name) d = or_not_found (get_volume_by_team_and_name team name d)

abbrev pub resolve_trimmed : Ident → Text → Db → Result Volume × Db
resolve_trimmed team ref d =
    if is_nil ref
    then fail invalid_request d
    else if has_prefix ref prefix_volume
    then resolve_id team (parse_volume_id ref) d
    else find_named team (volume_name ref) d

unfoldable pub resolve : Ident → Text → Db → Result Volume × Db
resolve team ref d = resolve_trimmed team (trim_space ref) d

-- What the calls of Delete on the host of a volume come to.
pub data HostLookup : Type 0 where
  host_found host_missing lookup_failed : HostLookup

pub data FileRemoval : Type 0 where
  removed not_found removal_failed : FileRemoval

pub record HostCalls : Type 0 where
  pub lookup : HostLookup
  pub has_client : Bool
  pub removal : FileRemoval

abbrev pub dropped : Outcome DbError (Unit {0}) × Db → Result (Unit {0}) × Db
dropped (ok _, d) = (ok tt, d)
dropped (err _, d) = fail internal d

abbrev pub drop : Ident → Ident → Db → Result (Unit {0}) × Db
drop id team d = dropped (delete_volume_row id team d)

-- A deletion that fails reverts its claim.
abbrev pub give_up : Ident → Error → Db → Result (Unit {0}) × Db
give_up id e d = fail e (abort_volume_delete id d).1

abbrev pub remove_file : Ident → Ident → HostCalls → Db → Result (Unit {0}) × Db
remove_file id team calls d =
    if not calls.has_client then give_up id internal d else elim calls.removal [
      | removal_failed ↦ give_up id internal d
      | removed ↦ drop id team d
      | not_found ↦ drop id team d
    ]

abbrev pub delete_claimed : Ident → Ident → HostCalls → Option Ident → Db → Result (Unit {0}) × Db
delete_claimed id team calls none d = drop id team d
delete_claimed id team calls (some host) d = elim calls.lookup [
  | host_missing ↦ drop id team d
  | lookup_failed ↦ give_up id host_not_found d
  | host_found ↦ remove_file id team calls d
]

abbrev pub not_claimable : Outcome DbError Volume × Db → Result (Unit {0}) × Db
not_claimable (ok v, d) = fail volume_in_use d
not_claimable (err _, d) = fail volume_not_found d

abbrev pub after_claim :
    Ident → Ident → HostCalls → Outcome DbError Volume × Db → Result (Unit {0}) × Db
after_claim id team calls (ok v, d) = delete_claimed id team calls v.host_id d
after_claim id team calls (err no_rows, d) = not_claimable (get_volume_by_team id team d)
after_claim id team calls (err _, d) = fail internal d

unfoldable pub delete : Ident → Ident → HostCalls → Db → Result (Unit {0}) × Db
delete id team calls d = after_claim id team calls (begin_volume_delete id team d)
