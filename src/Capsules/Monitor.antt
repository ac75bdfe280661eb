-- ===== src/Capsules/Monitor.antt =====
-- The host monitor (internal/api/host_monitor.go) over the two tables, and the reaper of volumes
-- (internal/api/volume_reaper.go). The hosts table and the audit log are left out: that a host is
-- stale, or online, is an input.
pub mod Changes
pub mod Checked
pub mod Listing
pub mod Settled
pub mod Groups
pub mod Stages
use wrenn.Prelude.{
  ℕ, ◌+◌, ◌-◌, ◌≡◌, Bool, true, false, not, ◌&&◌, ◌||◌, List, [], ◌∷◌, ◌++◌, Option, none, some,
  ◌==◌, leb, ltb, if◌then◌else◌, Text, text_eq, Outcome, err, ok, map,
}
use wrenn.Volumes.{Ident, Db, DbError, has_id}
use wrenn.Volumes.Statements.{detach_volumes_by_sandbox_ids, release_stale_volume_reservations}
use wrenn.Capsules.{
  SandboxStatus, starting, running, pausing, paused, resuming, snapshotting, stopping, stopped,
  error, missing, is_in, Sandbox, World, with_db, statement, move, update_sandbox_status_if,
}
use wrenn.Capsules.Bulk.{
  bulk_update_status_by_ids, bulk_restore_missing_to_status, mark_sandboxes_missing_by_host, Listed,
  list_sandboxes_by_host_and_status,
}

-- What the host reports, and what it answers to a destroy: that the capsule is gone, or not.
pub record Report : Type 0 where
  pub reported : List (Ident × SandboxStatus)
  pub gone : Ident → Bool
  pub now : ℕ
  pub order : List SandboxStatus

-- A status in between is only taken as a sign that the capsule is there.
abbrev pub coerced : SandboxStatus → Option SandboxStatus
coerced pausing = none
coerced resuming = none
coerced starting = none
coerced stopping = none
coerced s = some s

-- The map from capsules to their status, in which a later entry replaces an earlier one.
abbrev pub alive_in : List (Ident × SandboxStatus) → Ident → Option (Option SandboxStatus)
alive_in [] k = none
alive_in ((j, s) ∷ rest) k = elim (alive_in rest k) [
  | some a ↦ some a
  | none ↦ if text_eq j k then some (coerced s) else none
]

abbrev pub is_absent : Option (Option SandboxStatus) → Bool
is_absent none = true
is_absent (some a) = false

abbrev pub reports : SandboxStatus → Option (Option SandboxStatus) → Bool
reports s none = false
reports s (some none) = false
reports s (some (some t)) = is_in t s

-- The keys of the rows whose report meets a test.
abbrev pub keys_where : (Option (Option SandboxStatus) → Bool) → Report → Listed → List Ident
keys_where p r [] = []
keys_where p r ((k, v) ∷ rest) =
    let later = keys_where p r rest in if p (alive_in r.reported k) then k ∷ later else later

-- HostMonitor.detachVolumes.
unfoldable pub detach_all : List Ident → World → World
detach_all ids w = with_db (detach_volumes_by_sandbox_ids ids w.db).1 w

-- Capsules that the host does not have are stopped, and their volumes are freed once that is written.
unfoldable pub stop_all : List Ident → World → World
unfolding detach_all
stop_all [] w = w
stop_all (k ∷ ks) w =
    let ids = k ∷ ks in
    let (answer, w') = bulk_update_status_by_ids ids stopped w in
    elim answer [ err e ↦ w' | ok _ ↦ detach_all ids w' ]

-- One group of restoreByStatus, and one of syncByStatus.
abbrev pub group : (List Ident → World → World) → List Ident → World → World
group run [] w = w
group run (k ∷ ks) w = run (k ∷ ks) w

unfoldable pub restore_groups : List SandboxStatus → Report → Listed → World → World
restore_groups [] r listed w = w
restore_groups (s ∷ ss) r listed w = restore_groups ss r listed (
    group (λ ids v. (bulk_restore_missing_to_status ids s v).1) (keys_where (reports s) r listed) w)

abbrev pub sync_ids : SandboxStatus → Report → Listed → List Ident
sync_ids s r listed = if is_in s running then [] else keys_where (reports s) r listed

unfoldable pub sync_groups : List SandboxStatus → Report → Listed → World → World
sync_groups [] r listed w = w
sync_groups (s ∷ ss) r listed w =
    sync_groups ss r listed
      (group (λ ids v. (bulk_update_status_by_ids ids s v).1) (sync_ids s r listed) w)

unfoldable pub restore_missing : List Ident → Ident → Report → World → World
unfolding restore_groups stop_all
restore_missing keys host r w =
    let (answer, w') = list_sandboxes_by_host_and_status keys host (missing ∷ []) w in
    elim answer [
      | err e ↦ w'
      | ok listed ↦ stop_all (keys_where is_absent r listed) (restore_groups r.order r listed w')
    ]

unfoldable pub reconcile_running : Ident → Report → Listed → World → World
unfolding stop_all sync_groups
reconcile_running host r listed w =
    sync_groups r.order r listed (stop_all (keys_where is_absent r listed) w)

-- Nanoseconds.
abbrev pub transient_grace : ℕ
transient_grace = 120000000000

abbrev pub snapshot_grace : ℕ
snapshot_grace = 900000000000

abbrev pub age : Report → Sandbox → ℕ
age r v = r.now - v.last_updated

abbrev pub detach_if_ok : Ident → Outcome DbError Sandbox × World → World
detach_if_ok k (err e, w) = w
detach_if_ok k (ok v, w) = detach_all (k ∷ []) w

unfoldable pub promote : Ident → Sandbox → World → World
promote k v w =
    if is_in v.status starting || is_in v.status resuming
    then (update_sandbox_status_if k v.status running w).1
    else w

unfoldable pub retry_destroy : Report → Ident → Sandbox → World → World
unfolding detach_all
retry_destroy r k v w =
    if is_in v.status stopping && leb transient_grace (age r v) && r.gone k
    then detach_if_ok k (update_sandbox_status_if k stopping stopped w)
    else w

-- A snapshot goes back to the status that the host reports, if that is one a capsule rests in.
abbrev pub recover_to : Option SandboxStatus → SandboxStatus
recover_to none = running
recover_to (some s) = if is_in s paused then paused else running

unfoldable pub recover_snapshot : Report → Option SandboxStatus → Ident → Sandbox → World → World
recover_snapshot r agent k v w =
    if is_in v.status snapshotting && leb snapshot_grace (age r v)
    then (update_sandbox_status_if k snapshotting (recover_to agent) w).1
    else w

-- The status that is inferred for a capsule that the host does not have.
abbrev pub final_of : SandboxStatus → Option SandboxStatus
final_of starting = some error
final_of resuming = some error
final_of pausing = some paused
final_of stopping = some stopped
final_of snapshotting = some error
final_of s = none

abbrev pub is_final : SandboxStatus → Bool
is_final s = is_in s error || is_in s stopped

unfoldable pub infer_final : Report → Ident → Sandbox → World → World
unfolding detach_all
infer_final r k v w = if ltb (age r v) transient_grace then w else elim (final_of v.status) [
  | none ↦ w
  | some to ↦
      let done = update_sandbox_status_if k v.status to w in
      if is_final to then detach_if_ok k done else done.1
]

unfoldable pub resolve_transient : Report → Ident → Sandbox → World → World
unfolding promote retry_destroy recover_snapshot infer_final detach_all
resolve_transient r k v w = elim (alive_in r.reported k) [
  | some agent ↦ recover_snapshot r agent k v (retry_destroy r k v (promote k v w))
  | none ↦ infer_final r k v w
]

unfoldable pub resolve_all : Report → Listed → World → World
unfolding resolve_transient
resolve_all r [] w = w
resolve_all r ((k, v) ∷ rest) w = resolve_all r rest (resolve_transient r k v w)

has_paused : List (Ident × SandboxStatus) → Report → Bool
has_paused [] r = false
has_paused ((k, s) ∷ rest) r = reports paused (alive_in r.reported k) || has_paused rest r

-- The capsules that are stopped in the table and paused on the host are destroyed there, which
-- changes no table; the statement that lists them is made only if some capsule is paused.
unfoldable pub clear_zombies : List Ident → Ident → Report → World → World
unfolding has_paused
clear_zombies keys host r w =
    if has_paused r.reported r
    then (list_sandboxes_by_host_and_status keys host (stopped ∷ []) w).1
    else w

abbrev pub transient : List SandboxStatus
transient = starting ∷ resuming ∷ pausing ∷ stopping ∷ snapshotting ∷ []

unfoldable pub reconcile_transient : List Ident → Ident → Report → World → World
unfolding resolve_all
reconcile_transient keys host r w =
    let (answer, w') = list_sandboxes_by_host_and_status keys host transient w in
    elim answer [ err e ↦ w' | ok listed ↦ resolve_all r listed w' ]

unfoldable pub reconcile : List Ident → Ident → Report → World → World
unfolding restore_missing reconcile_running clear_zombies reconcile_transient
reconcile keys host r w =
    let w1 = restore_missing keys host r w in
    let (answer, w2) = list_sandboxes_by_host_and_status keys host (running ∷ []) w1 in
    elim answer [
      | err e ↦ w2
      | ok listed ↦
          reconcile_transient keys host r
            (clear_zombies keys host r (reconcile_running host r listed w2))
    ]

pub data HostStatus : Type 0 where
  online unreachable other : HostStatus

-- HostMonitor.checkHost: `stale` says that the heartbeat is too old; the report is none when the host
-- has no address or does not answer.
unfoldable pub check_host : List Ident → Ident → Bool → HostStatus → Option Report → World → World
unfolding reconcile
check_host keys host stale unreachable report w = w
check_host keys host true online report w = (mark_sandboxes_missing_by_host host w).1
check_host keys host true other report w = (mark_sandboxes_missing_by_host host w).1
check_host keys host false other report w = w
check_host keys host false online none w = w
check_host keys host false online (some r) w = reconcile keys host r w

-- VolumeReaper.run.
unfoldable pub run_reaper : ℕ → World → World
run_reaper cutoff w = with_db (release_stale_volume_reservations cutoff w.db).1 w
