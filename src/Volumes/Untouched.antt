-- ===== src/Volumes/Untouched.antt =====
-- A create that claims volumes leaves alone the volumes that it cannot claim.
use wrenn.Prelude.{
  ◌≡◌, refl, ◌∙◌, Bool, false, ◌||◌, List, [], ◌∷◌, ◌++◌, Option, none, some, Text, text_eq,
  Outcome, is_ok, trim_space, err, ok, arith,
}
use wrenn.Ids
use wrenn.Ids.{Uuid, parse_volume_id}
use wrenn.Validate
use wrenn.Validate.{volume_name}
use wrenn.Volumes.{Ident, Volume, Db, detached, is_status}
use wrenn.Volumes.Statements.{
  reserve_volume_for_attach, release_volume_reservation, get_volume_by_team,
  get_volume_by_team_and_name,
}
use wrenn.Volumes.Service.{panics, resolve, resolve_id, find_named, get, or_not_found}
use wrenn.Volumes.Reserve.{ReservedVolume, release_volume_reservations}

abbrev pub row_of : Db → Ident → Option Volume
row_of d = d.volumes.row

-- What a claim makes of a row.
pub release_keeps :
    (id k : Ident) (d : Db)
    → text_eq k id ≡ false
    → row_of (release_volume_reservation id d).1 k ≡ row_of d k
unfolding release_volume_reservation
release_keeps id k d h = ground arith

-- A call that only reads leaves the table, and the fate of the calls to come, as they are.
abbrev pub Reads : Db → Db → Type 0
Reads d e = (e.volumes ≡ d.volumes) × (e.turn ≡ d.turn)

get-Reads : (id team : Ident) (d : Db) → Reads d (get id team d).1
unfolding get get_volume_by_team
get-Reads id team d = ground arith

find-Reads :
    (team : Ident) (name : Text) (d : Db)
    → Reads d (or_not_found (get_volume_by_team_and_name team name d)).1
unfolding get_volume_by_team_and_name
find-Reads team name d = ground arith

resolve_id-Reads : (team : Ident) (r : Ids.Result Uuid) (d : Db) → Reads d (resolve_id team r d).1
unfolding get
resolve_id-Reads team (Ids.ok id) d = get-Reads id.bytes team d
resolve_id-Reads team (Ids.err e) d = (refl, refl)
resolve_id-Reads team Ids.panics d = (refl, refl)

find_named-Reads :
    (team : Ident) (r : Outcome Validate.Error Text) (d : Db) → Reads d (find_named team r d).1
find_named-Reads team (err e) d = (refl, refl)
find_named-Reads team (ok name) d = find-Reads team name d

pub resolve-Reads : (team : Ident) (ref : Text) (d : Db) → Reads d (resolve team ref d).1
unfolding resolve get
resolve-Reads team ref d = ground (
  arith,
  resolve_id-Reads team (parse_volume_id (trim_space ref)) d,
  find_named-Reads team (volume_name (trim_space ref)) d,
)

-- A row that is attaching, attached or being deleted.
abbrev pub IsBusy : Option Volume → Type 0
IsBusy none = ⊥
IsBusy (some v) = is_status v.status detached ≡ false

-- Claiming a volume that is not detached fails and changes nothing.
pub reserve_busy :
    (id : Ident) (d : Db)
    → IsBusy (row_of d id)
    → ((k : Ident) → row_of (reserve_volume_for_attach id d).1 k ≡ row_of d k)
      × (is_ok (reserve_volume_for_attach id d).0 ≡ false)
unfolding reserve_volume_for_attach
reserve_busy id d h = (λ k. ground arith, ground arith)

pub reserve_keeps :
    (id k : Ident) (d : Db)
    → text_eq k id ≡ false
    → row_of (reserve_volume_for_attach id d).1 k ≡ row_of d k
unfolding reserve_volume_for_attach
reserve_keeps id k d h = ground arith

-- Whether a volume is among the claims.
abbrev pub is_reserved : Ident → List ReservedVolume → Bool
is_reserved k [] = false
is_reserved k (rv ∷ rest) = text_eq k rv.id || is_reserved k rest

pub release_all_keeps :
    (k : Ident) (reserved : List ReservedVolume) (d : Db)
    → is_reserved k reserved ≡ false
    → row_of (release_volume_reservations reserved d) k ≡ row_of d k
unfolding release_volume_reservations
release_all_keeps k [] d h = refl
release_all_keeps k (rv ∷ rest) d h =
    release_all_keeps k rest (release_volume_reservation rv.id d).1 (ground arith)
    ∙ release_keeps rv.id k d (ground arith)

pub is_reserved-snoc :
    (k : Ident) (reserved : List ReservedVolume) (rv : ReservedVolume)
    → is_reserved k (reserved ++ rv ∷ []) ≡ (is_reserved k reserved || text_eq k rv.id)
is_reserved-snoc k [] rv = ground arith
is_reserved-snoc k (r ∷ rest) rv = ground (arith, is_reserved-snoc k rest rv)
