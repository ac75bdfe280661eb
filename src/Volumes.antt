-- ===== src/Volumes.antt =====
-- pkg/db/volumes.sql.go: the volumes table and its statements, each of which runs as one atomic step.
pub mod Statements
pub mod Service
pub mod Reserve
pub mod Turns
pub mod Untouched
pub mod Claimed
pub mod Restored
pub mod Resolved
pub mod Pins
pub mod Counts
pub mod Granted
pub mod Undone
pub mod Deleted
mod Tests
use wrenn.Prelude.{
  ◌⊎◌, inl, inr, refl, ℕ, ◌+◌, ◌≡◌, Bool, true, false, ◌&&◌, ◌||◌, List, [], ◌∷◌, Option, none,
  some, ltb, ◌==◌, if◌then◌else◌, Text, text_eq, Outcome, err, ok,
}

-- The sixteen bytes of an identifier; a column that may be NULL is an option of it.
abbrev pub Ident : Type 0
Ident = List ℕ

pub data VolumeStatus : Type 0 where
  detached attaching attached deleting : VolumeStatus

abbrev pub status_code : VolumeStatus → ℕ
status_code detached = 0
status_code attaching = 1
status_code attached = 2
status_code deleting = 3

abbrev pub is_status : VolumeStatus → VolumeStatus → Bool
is_status a b = status_code a == status_code b

pub record Volume : Type 0 where
  pub id : Ident
  pub team_id : Ident
  pub host_id : Option Ident
  pub name : Text
  pub size_mb : ℕ
  pub status : VolumeStatus
  pub sandbox_id : Option Ident
  pub mount_path : Text
  pub last_attached_at : Option ℕ
  pub last_updated : ℕ

-- The rows by primary key, and the keys in the order in which they were inserted.
pub record Table : Type 0 where
  pub ids : List Ident
  pub row : Ident → Option Volume

abbrev pub has_id : Ident → List Ident → Bool
has_id id [] = false
has_id id (a ∷ as') = text_eq a id || has_id id as'

abbrev pub is_id : Option Ident → Ident → Bool
is_id none id = false
is_id (some a) id = text_eq a id

abbrev pub in_ids : Option Ident → List Ident → Bool
in_ids none ids = false
in_ids (some a) ids = has_id a ids

abbrev pub is_null : Option Ident → Bool
is_null none = true
is_null (some a) = false

abbrev pub set_row : Ident → Option Volume → Table → Table
set_row id v t = record { ids = t.ids; row = λ k. if text_eq k id then v else t.row k }

-- UPDATE ... WHERE id = $1 AND test RETURNING *: the row it changed, when the test held of it.
abbrev pub update_row : Ident → (Volume → Bool) → (Volume → Volume) → Table → Option Volume × Table
update_row id test change t = elim (t.row id) [
  | none ↦ (none, t)
  | some v ↦ if test v then (some (change v), set_row id (some (change v)) t) else (none, t)
]

abbrev pub change_if : (Volume → Bool) → (Volume → Volume) → Option Volume → Option Volume
change_if test change none = none
change_if test change (some v) = if test v then some (change v) else some v

-- UPDATE ... WHERE test, on every row.
abbrev pub update_rows : (Volume → Bool) → (Volume → Volume) → Table → Table
update_rows test change t = record { ids = t.ids; row = λ k. change_if test change (t.row k) }

-- SELECT ... WHERE team_id = $1 AND name = $2.
abbrev pub select_named : Ident → Text → (Ident → Option Volume) → List Ident → Option Volume
select_named team name row [] = none
select_named team name row (id ∷ ids) =
    let later = select_named team name row ids in
    elim (row id) [
      | none ↦ later
      | some v ↦ if text_eq v.team_id team && text_eq v.name name then some v else later
    ]

-- What becomes of a call of the database: `lost` is a statement that ran, whose answer did not
-- arrive.
pub data Fault : Type 0 where
  fine refused lost : Fault

pub Fault-cases : (f : Fault) → (f ≡ fine) ⊎ (f ≡ refused) ⊎ (f ≡ lost)
Fault-cases fine = inl refl
Fault-cases refused = inr (inl refl)
Fault-cases lost = inr (inr refl)

pub record Turn : Type 0 where
  pub now : ℕ
  pub fault : Fault

-- The table, and the time and the fate of each call to come.
pub record Db : Type 0 where
  pub volumes : Table
  pub calls : ℕ
  pub turn : ℕ → Turn

pub data DbError : Type 0 where
  no_rows unique_violation failed : DbError

abbrev pub after : Table → Db → Db
after t d = record { volumes = t; calls = d.calls + 1; turn = d.turn }

abbrev pub statement {ℓ} :
    {R : Type ℓ} → (ℕ → Table → Outcome DbError R × Table) → Db → Outcome DbError R × Db
statement run d =
    let turn = d.turn d.calls in
    let (answer, t) = run turn.now d.volumes in
    elim turn.fault [
      | fine ↦ (answer, after t d)
      | refused ↦ (err failed, after d.volumes d)
      | lost ↦ (err failed, after t d)
    ]

abbrev pub found : Option Volume → Outcome DbError Volume
found none = err no_rows
found (some v) = ok v

abbrev pub one : Option Volume × Table → Outcome DbError Volume × Table
one (v, t) = (found v, t)

abbrev pub exec : Table → Outcome DbError (Unit {0}) × Table
exec t = (ok tt, t)
