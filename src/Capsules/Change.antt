-- ===== src/Capsules/Change.antt =====
-- pkg/service/sandbox.go: pausing, resuming, snapshotting and destroying a capsule, each as the call
-- that claims the transition and the goroutine that finishes it.
use wrenn.Prelude.{
  ℕ, zero, suc, ◌+◌, Bool, true, false, not, ◌&&◌, ◌||◌, [], ◌∷◌, ◌++◌, Option, none, some, ltb,
  if◌then◌else◌, Text, text_eq, Outcome, err, ok, codes, is_nil,
}
use wrenn.Validate.{safe_name}
use wrenn.Volumes.{Ident, DbError}
use wrenn.Volumes.Statements.{detach_volumes_by_sandbox}
use wrenn.Capsules.{
  SandboxStatus, starting, running, pausing, paused, resuming, snapshotting, stopping, stopped,
  error, is_in, Labels, Sandbox, World, Error, Result, fail, sandbox_not_found, sandbox_not_running,
  sandbox_not_paused, conflict, validation_failed, internal, get_sandbox_by_team, get_sandbox,
  update_sandbox_status_if, update_sandbox_running_if, update_sandbox_status,
  update_sandbox_metadata, publish, with_db, state_changed, pause_failed, sandbox_paused,
  resume_failed, sandbox_resumed, snapshot_failed, sandbox_snapshotted, destroy_failed,
  sandbox_stopped,
}

-- What looking up the client of a capsule's host comes to.
abbrev pub Reach : Type 0
Reach = Outcome Error (Unit {0})

-- A transition that was claimed: the host is looked up, and the claim is given back when that fails.
abbrev pub claimed :
    Ident → SandboxStatus → SandboxStatus → Reach → Sandbox → World → Result Sandbox × World
claimed id from to (err e) sb w = fail e (update_sandbox_status_if id to from w).1
claimed id from to (ok _) sb w = (ok (record sb { status = to }), w)

abbrev pub pause_found : Ident → Reach → Sandbox → World → Result Sandbox × World
pause_found id reach sb w =
    let (won, v) = update_sandbox_status_if id running pausing w in
    if is_in sb.status paused then (ok sb, w) else elim won [
      | err _ ↦ fail sandbox_not_running v
      | ok _ ↦ claimed id running pausing reach sb v
    ]

unfoldable pub pause : Ident → Ident → Reach → World → Result Sandbox × World
pause id team reach w =
    let (got, v) = get_sandbox_by_team id team w in
    elim got [ err _ ↦ fail sandbox_not_found v | ok sb ↦ pause_found id reach sb v ]

-- `done` is whether the host answered that it paused the capsule.
unfoldable pub pause_in_background : Ident → Bool → World → World
pause_in_background id done w =
    if done
    then publish sandbox_paused id [] (update_sandbox_status_if id pausing paused w).1
    else publish pause_failed id [] (update_sandbox_status_if id pausing running w).1

abbrev pub resume_found : Ident → Reach → Sandbox → World → Result Sandbox × World
resume_found id reach sb w =
    let (won, v) = update_sandbox_status_if id paused resuming w in
    if is_in sb.status running then (ok sb, w) else elim won [
      | err _ ↦ fail sandbox_not_paused v
      | ok _ ↦ claimed id paused resuming reach sb v
    ]

unfoldable pub resume : Ident → Ident → Reach → World → Result Sandbox × World
resume id team reach w =
    let (got, v) = get_sandbox_by_team id team w in
    elim got [ err _ ↦ fail sandbox_not_found v | ok sb ↦ resume_found id reach sb v ]

abbrev pub has_label : Text → Labels → Bool
has_label k [] = false
has_label k ((key, value) ∷ rest) = text_eq key k || has_label k rest

abbrev pub without : Labels → Labels → Labels
without system [] = []
without system ((k, v) ∷ rest) =
    let kept = without system rest in if has_label k system then kept else (k, v) ∷ kept

-- The system's labels replace those of the user that have the same key.
abbrev pub merge_labels : Labels → Labels → Labels
merge_labels user system = system ++ without system user

abbrev pub no_labels : Labels → Bool
no_labels [] = true
no_labels (l ∷ rest) = false

unfoldable pub persist_system_metadata : Ident → Labels → Labels → World → World
persist_system_metadata id user system w =
    if no_labels system then w else update_sandbox_metadata id (merge_labels user system) w

abbrev pub labels_of : Outcome DbError Sandbox → Labels
labels_of (err _) = []
labels_of (ok sb) = sb.metadata

abbrev pub refresh_metadata : Ident → Labels → World → World
unfolding persist_system_metadata
refresh_metadata id system w =
    let (current, v) = get_sandbox id w in
    if no_labels system then w else persist_system_metadata id (labels_of current) system v

-- `reply` is what the host answers: its address and the system's labels.
unfoldable pub resume_in_background : Ident → Option (Text × Labels) → World → World
unfolding persist_system_metadata
resume_in_background id none w =
    publish resume_failed id [] (update_sandbox_status_if id resuming paused w).1
resume_in_background id (some (ip, system)) w =
    publish sandbox_resumed id system
      (refresh_metadata id system (update_sandbox_running_if id resuming ip w).1)

abbrev pub status_name : SandboxStatus → Text
status_name starting = codes "starting"
status_name running = codes "running"
status_name pausing = codes "pausing"
status_name paused = codes "paused"
status_name resuming = codes "resuming"
status_name snapshotting = codes "snapshotting"
status_name stopping = codes "stopping"
status_name stopped = codes "stopped"
status_name error = codes "error"
status_name _ = codes "missing"

abbrev pub publish_state_changed : Ident → Text → Text → World → World
publish_state_changed id from to =
    publish state_changed id ((codes "from", from) ∷ (codes "to", to) ∷ [])

abbrev pub announced : Ident → SandboxStatus → Result Sandbox × World → Result Sandbox × World
announced id from (err e, w) = (err e, w)
announced id from (ok sb, w) =
    (ok sb, publish_state_changed id (status_name from) (codes "snapshotting") w)

abbrev pub snapshot_named : Ident → Reach → Bool → Sandbox → World → Result Sandbox × World
snapshot_named id reach taken sb w =
    let (won, v) = update_sandbox_status_if id sb.status snapshotting w in
    if taken then fail conflict w else elim won [
      | err _ ↦ fail conflict v
      | ok _ ↦ announced id sb.status (claimed id sb.status snapshotting reach sb v)
    ]

abbrev pub snapshot_found :
    Ident → Text → (Text → Bool) → Reach → Sandbox → World → Result Sandbox × World
snapshot_found id name taken reach sb w =
    if not (is_in sb.status running) && not (is_in sb.status paused)
    then fail conflict w
    else elim (safe_name name) [
      | err _ ↦ fail validation_failed w
      | ok _ ↦ snapshot_named id reach (taken name) sb w
    ]

-- `fresh` is the name drawn when none is given, `taken` the names of the team's templates.
unfoldable pub create_snapshot :
    Ident → Ident → Text → Text → (Text → Bool) → Reach → World → Result Sandbox × World
create_snapshot id team name fresh taken reach w =
    let (got, v) = get_sandbox_by_team id team w in
    elim got [
      | err _ ↦ fail sandbox_not_found v
      | ok sb ↦ snapshot_found id (if is_nil name then fresh else name) taken reach sb v
    ]

abbrev pub restored : Ident → SandboxStatus → Outcome DbError Sandbox × World → World
restored id to (err _, w) = w
restored id to (ok _, w) = publish_state_changed id (codes "snapshotting") (status_name to) w

-- `done` is whether the host made the snapshot, `registered` whether its template was stored.
unfoldable pub snapshot_in_background : Ident → Text → SandboxStatus → Bool → Bool → World → World
snapshot_in_background id name origin done registered w =
    let v = restored id origin (update_sandbox_status_if id snapshotting origin w) in
    let label = (codes "name", name) ∷ [] in
    if done && registered
    then publish sandbox_snapshotted id label v
    else publish snapshot_failed id label v

abbrev pub marked : Outcome DbError Sandbox × World → Result (Unit {0}) × World
marked (ok _, w) = (ok tt, w)
marked (err _, w) = fail internal w

abbrev pub destroy_found : Ident → Reach → Sandbox → World → Result (Unit {0}) × World
destroy_found id reach sb w =
    let (again, v) = get_sandbox id w in
    if is_in sb.status stopped || is_in sb.status error then (ok tt, w) else elim again [
      | err _ ↦ fail sandbox_not_found v
      | ok _ ↦ elim reach [ err e ↦ fail e v | ok _ ↦ marked (update_sandbox_status id stopping v) ]
    ]

unfoldable pub destroy : Ident → Ident → Reach → World → Result (Unit {0}) × World
destroy id team reach w =
    let (got, v) = get_sandbox_by_team id team w in
    elim got [ err _ ↦ fail sandbox_not_found v | ok sb ↦ destroy_found id reach sb v ]

-- What one attempt at the host comes to; before each but the first the time may be up.
pub data Attempt : Type 0 where
  destroyed not_there broken : Attempt

pub record Attempts : Type 0 where
  pub expired : ℕ → Bool
  pub reply : ℕ → Attempt

pub data Teardown : Type 0 where
  confirmed unconfirmed gave_up : Teardown

unfoldable pub tear_down : ℕ → ℕ → Attempts → Teardown
tear_down zero i calls = unconfirmed
tear_down (suc k) i calls =
    let later = tear_down k (i + 1) calls in
    if ltb 0 i && calls.expired i
    then gave_up
    else elim (calls.reply i) [ destroyed ↦ confirmed | not_there ↦ confirmed | broken ↦ later ]

abbrev pub destroy_sandbox_retries : ℕ
destroy_sandbox_retries = 3

-- The metrics that are flushed and dropped here are not modelled.
unfoldable pub destroy_in_background : Ident → Attempts → World → World
unfolding tear_down
destroy_in_background id calls w = elim (tear_down destroy_sandbox_retries 0 calls) [
  | gave_up ↦ w
  | unconfirmed ↦ publish destroy_failed id [] w
  | confirmed ↦
      let freed = with_db (detach_volumes_by_sandbox id w.db).1 w in
      publish sandbox_stopped id [] (update_sandbox_status_if id stopping stopped freed).1
]
