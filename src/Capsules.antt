-- ===== src/Capsules.antt =====
-- The capsules of the control plane: the sandboxes table with its statements
-- (pkg/db/sandboxes.sql.go), beside the volumes, and the events that the service publishes.
pub mod Create
pub mod Change
pub mod Edges
pub mod Lifecycle
pub mod Snapshots
pub mod Ends
pub mod Begins
pub mod Steps
pub mod Exclusive
pub mod Frees
pub mod Consumer
pub mod Bulk
pub mod Monitor
mod Tests
use wrenn.Prelude.{
  ℕ, ◌+◌, ◌≡◌, Bool, true, false, ◌&&◌, ◌||◌, List, [], ◌∷◌, ◌++◌, Option, none, some, ◌==◌,
  if◌then◌else◌, Text, text_eq, Outcome, err, ok, ℤ, codes,
}
use wrenn.Volumes
use wrenn.Volumes.{Ident, Db, DbError, no_rows, unique_violation, failed, Turn, fine, refused, lost}
use wrenn.Volumes.Service

pub data SandboxStatus : Type 0 where
  starting running pausing paused resuming snapshotting stopping stopped error missing :
      SandboxStatus

abbrev pub sandbox_code : SandboxStatus → ℕ
sandbox_code starting = 0
sandbox_code running = 1
sandbox_code pausing = 2
sandbox_code paused = 3
sandbox_code resuming = 4
sandbox_code snapshotting = 5
sandbox_code stopping = 6
sandbox_code stopped = 7
sandbox_code error = 8
sandbox_code missing = 9

abbrev pub is_in : SandboxStatus → SandboxStatus → Bool
is_in a b = sandbox_code a == sandbox_code b

abbrev pub Labels : Type 0
Labels = List (Text × Text)

pub record Sandbox : Type 0 where
  pub id : Ident
  pub team_id : Ident
  pub host_id : Ident
  pub template : Text
  pub template_id : Ident
  pub template_team_id : Ident
  pub status : SandboxStatus
  pub vcpus : ℤ
  pub memory_mb : ℤ
  pub timeout_sec : ℕ
  pub disk_size_mb : ℕ
  pub host_ip : Text
  pub metadata : Labels
  pub started_at : Option ℕ
  pub last_updated : ℕ

pub data EventKind : Type 0 where
  state_changed sandbox_failed sandbox_started pause_failed sandbox_paused resume_failed
        sandbox_resumed :
      EventKind
  snapshot_failed sandbox_snapshotted destroy_failed sandbox_stopped : EventKind

pub record Event : Type 0 where
  pub kind : EventKind
  pub sandbox_id : Ident
  pub labels : Labels

-- The two tables share the calls of the database; the newest event comes first.
pub record World : Type 0 where
  pub db : Db
  pub sandboxes : Ident → Option Sandbox
  pub events : List Event

pub data Error : Type 0 where
  validation_failed invalid_request sandbox_not_found sandbox_not_running : Error
  sandbox_not_paused conflict template_not_found team_not_found : Error
  volume_host_mismatch no_host internal : Error
  of_volumes : Service.Error → Error

pub data Stop : Type 0 where
  fails : Error → Stop
  panics : Stop

abbrev pub Result : Type 0 → Type 0
Result = Outcome Stop

abbrev pub fail {ℓ} : {D : Type ℓ} {V : Type 0} → Error → D → Result V × D
fail e w = (err (fails e), w)

abbrev pub with_rows : (Ident → Option Sandbox) → World → World
with_rows rows w = record {
  db = Volumes.after w.db.volumes w.db;
  sandboxes = rows;
  events = w.events;
}

abbrev pub statement {ℓ} :
    {R : Type ℓ}
    → (ℕ → (Ident → Option Sandbox) → Outcome DbError R × (Ident → Option Sandbox))
    → World
    → Outcome DbError R × World
statement run w =
    let turn = w.db.turn w.db.calls in
    let (answer, rows) = run turn.now w.sandboxes in
    elim turn.fault [
      | fine ↦ (answer, with_rows rows w)
      | refused ↦ (err Volumes.failed, with_rows w.sandboxes w)
      | lost ↦ (err Volumes.failed, with_rows rows w)
    ]

abbrev pub set_row : Ident → Sandbox → (Ident → Option Sandbox) → Ident → Option Sandbox
set_row id v rows k = if text_eq k id then some v else rows k

abbrev pub found : Option Sandbox → Outcome DbError Sandbox
found none = err no_rows
found (some v) = ok v

-- UPDATE sandboxes ... WHERE id = $1 AND test RETURNING *.
abbrev pub update_row :
    Ident
    → (Sandbox → Bool)
    → (Sandbox → Sandbox)
    → (Ident → Option Sandbox)
    → Outcome DbError Sandbox × (Ident → Option Sandbox)
update_row id test change rows = elim (rows id) [
  | none ↦ (err no_rows, rows)
  | some v ↦ if test v then (ok (change v), set_row id (change v) rows) else (err no_rows, rows)
]

abbrev pub of_team : Ident → Option Sandbox → Option Sandbox
of_team team none = none
of_team team (some v) = if text_eq v.team_id team then some v else none

unfoldable pub get_sandbox_by_team : Ident → Ident → World → Outcome DbError Sandbox × World
get_sandbox_by_team id team = statement (λ now rows. (found (of_team team (rows id)), rows))

unfoldable pub get_sandbox : Ident → World → Outcome DbError Sandbox × World
get_sandbox id = statement (λ now rows. (found (rows id), rows))

abbrev pub move : SandboxStatus → ℕ → Sandbox → Sandbox
move to now v = record v { status = to; last_updated = now }

unfoldable pub update_sandbox_status_if :
    Ident → SandboxStatus → SandboxStatus → World → Outcome DbError Sandbox × World
update_sandbox_status_if id from to =
    statement (λ now rows. update_row id (λ v. is_in v.status from) (move to now) rows)

abbrev pub run_at : Text → ℕ → Sandbox → Sandbox
run_at ip now v = record v {
  status = running;
  host_ip = ip;
  started_at = some now;
  last_updated = now;
}

unfoldable pub update_sandbox_running_if :
    Ident → SandboxStatus → Text → World → Outcome DbError Sandbox × World
update_sandbox_running_if id from ip =
    statement (λ now rows. update_row id (λ v. is_in v.status from) (run_at ip now) rows)

unfoldable pub update_sandbox_status :
    Ident → SandboxStatus → World → Outcome DbError Sandbox × World
update_sandbox_status id to = statement (λ now rows. update_row id (λ v. true) (move to now) rows)

unfoldable pub update_sandbox_disk_size : Ident → ℕ → World → World
update_sandbox_disk_size id size w =
    (statement
      (λ now rows.
        update_row id (λ v. true) (λ v. record v { disk_size_mb = size; last_updated = now }) rows)
      w).1

unfoldable pub update_sandbox_metadata : Ident → Labels → World → World
update_sandbox_metadata id labels w =
    (statement
      (λ now rows.
        update_row id (λ v. true) (λ v. record v { metadata = labels; last_updated = now }) rows)
      w).1

abbrev pub insert_row :
    Sandbox → (Ident → Option Sandbox) → Outcome DbError Sandbox × (Ident → Option Sandbox)
insert_row v rows = elim (rows v.id) [
  | some _ ↦ (err unique_violation, rows)
  | none ↦ (ok v, set_row v.id v rows)
]

unfoldable pub insert_sandbox : (ℕ → Sandbox) → World → Outcome DbError Sandbox × World
insert_sandbox make = statement (λ now rows. insert_row (make now) rows)

abbrev pub publish : EventKind → Ident → Labels → World → World
publish kind id labels w = record {
  db = w.db;
  sandboxes = w.sandboxes;
  events = record { kind = kind; sandbox_id = id; labels = labels } ∷ w.events;
}

-- Volumes alone change.
abbrev pub with_db : Db → World → World
with_db d w = record { db = d; sandboxes = w.sandboxes; events = w.events }
