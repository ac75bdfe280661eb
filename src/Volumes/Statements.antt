-- ===== src/Volumes/Statements.antt =====
-- pkg/db/volumes.sql.go: the statements on the volumes table.
use wrenn.Prelude.{
  ℕ, Bool, true, false, ◌&&◌, ◌||◌, List, [], ◌∷◌, Option, none, some, ltb, if◌then◌else◌, Text,
  text_eq, Outcome, err, ok,
}
use wrenn.Volumes.{
  Ident, VolumeStatus, detached, attaching, attached, deleting, is_status, Volume, Table, is_id,
  in_ids, is_null, set_row, update_row, update_rows, select_named, Db, DbError, unique_violation,
  statement, one, exec,
}

-- ReserveVolumeForAttach.
abbrev pub claim : ℕ → Volume → Volume
claim now v = record v { status = attaching; last_updated = now }

unfoldable pub reserve_volume_for_attach : Ident → Db → Outcome DbError Volume × Db
reserve_volume_for_attach id =
    statement (λ now t. one (update_row id (λ v. is_status v.status detached) (claim now) t))

-- ReleaseVolumeReservation.
abbrev pub unclaim : ℕ → Volume → Volume
unclaim now v = record v { status = detached; sandbox_id = none; last_updated = now }

unfoldable pub release_volume_reservation : Ident → Db → Outcome DbError (Unit {0}) × Db
release_volume_reservation id =
    statement (λ now t. exec (update_row id (λ v. is_status v.status attaching) (unclaim now) t).1)

-- LinkVolumeReservation.
abbrev pub link : Ident → ℕ → Volume → Volume
link sandbox now v = record v { sandbox_id = some sandbox; last_updated = now }

unfoldable pub link_volume_reservation : Ident → Ident → Db → Outcome DbError (Unit {0}) × Db
link_volume_reservation id sandbox =
    statement
      (λ now t. exec (update_row id (λ v. is_status v.status attaching) (link sandbox now) t).1)

-- COALESCE(host_id, $2).
abbrev pub coalesce : Option Ident → Ident → Option Ident
coalesce none host = some host
coalesce (some h) host = some h

-- MarkVolumeAttached.
abbrev pub attach : Ident → Ident → Text → ℕ → Volume → Volume
attach host sandbox path now v = record v {
  status = attached;
  host_id = coalesce v.host_id host;
  sandbox_id = some sandbox;
  mount_path = path;
  last_attached_at = some now;
  last_updated = now;
}

unfoldable pub mark_volume_attached :
    Ident → Ident → Ident → Text → Db → Outcome DbError Volume × Db
mark_volume_attached id host sandbox path = statement (λ now t.
    one (update_row id (λ v. is_status v.status attaching) (attach host sandbox path now) t))

abbrev pub is_held : VolumeStatus → Bool
is_held s = is_status s attached || is_status s attaching

-- DetachVolumesBySandboxIDs, and DetachVolumesBySandbox for one capsule.
abbrev pub free : ℕ → Volume → Volume
free now v = record v { status = detached; sandbox_id = none; mount_path = []; last_updated = now }

unfoldable pub detach_volumes_by_sandbox_ids : List Ident → Db → Outcome DbError (Unit {0}) × Db
detach_volumes_by_sandbox_ids sandboxes = statement (λ now t.
    exec (update_rows (λ v. in_ids v.sandbox_id sandboxes && is_held v.status) (free now) t))

unfoldable pub detach_volumes_by_sandbox : Ident → Db → Outcome DbError (Unit {0}) × Db
detach_volumes_by_sandbox sandbox =
    statement (λ now t.
      exec (update_rows (λ v. is_id v.sandbox_id sandbox && is_held v.status) (free now) t))

-- DetachVolumesByHost.
unfoldable pub detach_volumes_by_host : Ident → Db → Outcome DbError (Unit {0}) × Db
detach_volumes_by_host host = statement (λ now t.
    exec (update_rows (λ v. is_id v.host_id host) (λ v. record (free now v) { host_id = none }) t))

-- ReleaseStaleVolumeReservations.
abbrev pub is_stale : ℕ → Volume → Bool
is_stale cutoff v =
    (is_status v.status attaching || is_status v.status deleting)
    && is_null v.sandbox_id
    && ltb v.last_updated cutoff

abbrev pub unstick : ℕ → Volume → Volume
unstick now v = record v { status = detached; mount_path = []; last_updated = now }

unfoldable pub release_stale_volume_reservations : ℕ → Db → Outcome DbError (Unit {0}) × Db
release_stale_volume_reservations cutoff =
    statement (λ now t. exec (update_rows (is_stale cutoff) (unstick now) t))

-- BeginVolumeDelete.
abbrev pub is_deletable : Ident → Volume → Bool
is_deletable team v =
    text_eq v.team_id team && (is_status v.status detached || is_status v.status deleting)

abbrev pub mark_deleting : ℕ → Volume → Volume
mark_deleting now v = record v { status = deleting; last_updated = now }

unfoldable pub begin_volume_delete : Ident → Ident → Db → Outcome DbError Volume × Db
begin_volume_delete id team =
    statement (λ now t. one (update_row id (is_deletable team) (mark_deleting now) t))

-- AbortVolumeDelete.
abbrev pub revert : ℕ → Volume → Volume
revert now v = record v { status = detached; last_updated = now }

unfoldable pub abort_volume_delete : Ident → Db → Outcome DbError (Unit {0}) × Db
abort_volume_delete id =
    statement (λ now t. exec (update_row id (λ v. is_status v.status deleting) (revert now) t).1)

-- DeleteVolumeRow and DeleteVolumesByTeam.
abbrev pub drop_if : (Volume → Bool) → Option Volume → Option Volume
drop_if test none = none
drop_if test (some v) = if test v then none else some v

abbrev pub is_dropped : Ident → Volume → Bool
is_dropped team v = text_eq v.team_id team && is_status v.status deleting

abbrev pub drop_row : Ident → (Volume → Bool) → Table → Table
drop_row id test t = set_row id (drop_if test (t.row id)) t

unfoldable pub delete_volume_row : Ident → Ident → Db → Outcome DbError (Unit {0}) × Db
delete_volume_row id team = statement (λ now t. exec (drop_row id (is_dropped team) t))

abbrev pub drop_rows : (Volume → Bool) → Table → Table
drop_rows test t = record { ids = t.ids; row = λ k. drop_if test (t.row k) }

unfoldable pub delete_volumes_by_team : Ident → Db → Outcome DbError (Unit {0}) × Db
delete_volumes_by_team team = statement (λ now t. exec (drop_rows (λ v. text_eq v.team_id team) t))

-- InsertVolume: the primary key is id, and (team_id, name) is unique.
abbrev pub is_some : Option Volume → Bool
is_some none = false
is_some (some v) = true

abbrev pub insert : Volume → Table → Table
insert v t = record { ids = v.id ∷ t.ids; row = (set_row v.id (some v) t).row }

abbrev pub new_volume : Ident → Ident → Text → ℕ → ℕ → Volume
new_volume id team name size now = record {
  id = id;
  team_id = team;
  host_id = none;
  name = name;
  size_mb = size;
  status = detached;
  sandbox_id = none;
  mount_path = [];
  last_attached_at = none;
  last_updated = now;
}

unfoldable pub insert_volume : Ident → Ident → Text → ℕ → Db → Outcome DbError Volume × Db
insert_volume id team name size = statement (λ now t.
    let v = new_volume id team name size now in
    if is_some (t.row id) || is_some (select_named team name t.row t.ids)
    then (err unique_violation, t)
    else (ok v, insert v t))

-- GetVolumeByTeam and GetVolumeByTeamAndName.
abbrev pub of_team : Ident → Option Volume → Option Volume
of_team team none = none
of_team team (some v) = if text_eq v.team_id team then some v else none

unfoldable pub get_volume_by_team : Ident → Ident → Db → Outcome DbError Volume × Db
get_volume_by_team id team = statement (λ now t. one (of_team team (t.row id), t))

unfoldable pub get_volume_by_team_and_name : Ident → Text → Db → Outcome DbError Volume × Db
get_volume_by_team_and_name team name =
    statement (λ now t. one (select_named team name t.row t.ids, t))
