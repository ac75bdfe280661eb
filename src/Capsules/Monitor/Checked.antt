-- ===== src/Capsules/Monitor/Checked.antt =====
-- A check of a host by the monitor (internal/api/host_monitor.go): the stage of one row after another,
-- and all the stages.
use wrenn.Prelude.{
  ◌≡◌, refl, inl, inr, Bool, true, false, ◌&&◌, ◌||◌, List, [], ◌∷◌, Option, none, some, arith,
  Bool-cases, Option-cases, Outcome-cases, leb, ltb,
}
use wrenn.Volumes.{Ident}
use wrenn.Capsules.{
  SandboxStatus, starting, pausing, paused, resuming, stopping, snapshotting, running, stopped,
  error, missing, is_in, Sandbox, World,
}
use wrenn.Capsules.Monitor.{
  Report, promote, retry_destroy, recover_to, recover_snapshot, final_of, is_final, infer_final,
  resolve_transient, resolve_all, alive_in, clear_zombies, has_paused, transient, transient_grace,
  snapshot_grace, age, reconcile_transient, restore_missing, reconcile_running, reconcile,
  HostStatus, online, unreachable, other, check_host,
}
use wrenn.Capsules.Bulk.{Listed, list_sandboxes_by_host_and_status}
use wrenn.Capsules.Monitor.Settled.{
  is_over, Settles, Settles-refl, Settles-trans, list-Settles, mark-Settles,
}
use wrenn.Capsules.Monitor.Listing.{list-AllLive}
use wrenn.Capsules.Monitor.Stages.{are_distinct, restore_missing-Settles, reconcile_running-Settles}
use wrenn.Capsules.Monitor.Changes.{cas-Settles, final-Settles}

promote-Settles : (k : Ident) (v : Sandbox) (w : World) → Settles w (promote k v w)
unfolding promote
promote-Settles k v w = elim (Bool-cases (is_in v.status starting || is_in v.status resuming)) [
  | inl t ↦ rw (promote, t) (cas-Settles k v.status running w (ground (arith, t)))
  | inr f ↦ rw (promote, f) (Settles-refl w)
]

retry_destroy-Settles :
    (r : Report) (k : Ident) (v : Sandbox) (w : World) → Settles w (retry_destroy r k v w)
unfolding retry_destroy
retry_destroy-Settles r k v w =
    elim (Bool-cases (is_in v.status stopping && leb transient_grace (age r v) && r.gone k)) [
      | inl t ↦ rw (retry_destroy, t) (final-Settles k stopping stopped w refl refl)
      | inr f ↦ rw (retry_destroy, f) (Settles-refl w)
    ]

recover_snapshot-Settles :
    (r : Report) (agent : Option SandboxStatus) (k : Ident) (v : Sandbox) (w : World)
    → Settles w (recover_snapshot r agent k v w)
unfolding recover_snapshot
recover_snapshot-Settles r agent k v w =
    elim (Bool-cases (is_in v.status snapshotting && leb snapshot_grace (age r v))) [
      | inl t ↦ rw (recover_snapshot, t) (cas-Settles k snapshotting (recover_to agent) w refl)
      | inr f ↦ rw (recover_snapshot, f) (Settles-refl w)
    ]

final_of_not_over : (s to : SandboxStatus) → final_of s ≡ some to → is_over s ≡ false
final_of_not_over starting to h = refl
final_of_not_over running to h = refl
final_of_not_over pausing to h = refl
final_of_not_over paused to h = refl
final_of_not_over resuming to h = refl
final_of_not_over snapshotting to h = refl
final_of_not_over stopping to h = refl
final_of_not_over stopped to h = cc
final_of_not_over error to h = cc
final_of_not_over missing to h = refl

infer_final-Settles :
    (r : Report) (k : Ident) (v : Sandbox) (w : World) → Settles w (infer_final r k v w)
unfolding infer_final
infer_final-Settles r k v w = elim (Bool-cases (ltb (age r v) transient_grace)) [
  | inl t ↦ rw (infer_final, t) (Settles-refl w)
  | inr f ↦ elim (Option-cases (final_of v.status)) [
    | inl e ↦ rw (infer_final, f, e) (Settles-refl w)
    | inr (to, e) ↦
        let o = final_of_not_over v.status to e in
        elim (Bool-cases (is_final to)) [
          | inl t ↦ rw (infer_final, f, e, t) (final-Settles k v.status to w o (ground (arith, t)))
          | inr n ↦ rw (infer_final, f, e, n) (cas-Settles k v.status to w o)
        ]
  ]
]

resolve_transient-Settles :
    (r : Report) (k : Ident) (v : Sandbox) (w : World) → Settles w (resolve_transient r k v w)
unfolding resolve_transient
resolve_transient-Settles r k v w = elim (Option-cases (alive_in r.reported k)) [
  | inl e ↦ rw (resolve_transient, e) (infer_final-Settles r k v w)
  | inr (agent, e) ↦
      let w1 = promote k v w in
      let w2 = retry_destroy r k v w1 in
      rw (resolve_transient, e)
        (Settles-trans w w1 (recover_snapshot r agent k v w2) (promote-Settles k v w) (
          Settles-trans w1 w2 (recover_snapshot r agent k v w2) (retry_destroy-Settles r k v w1)
            (recover_snapshot-Settles r agent k v w2)))
]

resolve_all-Settles :
    (r : Report) (listed : Listed) (w : World) → Settles w (resolve_all r listed w)
unfolding resolve_all
resolve_all-Settles r [] w = Settles-refl w
resolve_all-Settles r ((k, v) ∷ rest) w =
    let w' = resolve_transient r k v w in
    Settles-trans w w' (resolve_all r rest w') (resolve_transient-Settles r k v w)
      (resolve_all-Settles r rest w')

clear_zombies-Settles :
    (keys : List Ident) (host : Ident) (r : Report) (w : World)
    → Settles w (clear_zombies keys host r w)
unfolding clear_zombies
clear_zombies-Settles keys host r w = elim (Bool-cases (has_paused r.reported r)) [
  | inl t ↦ rw (clear_zombies, t) (list-Settles keys host (stopped ∷ []) w)
  | inr f ↦ rw (clear_zombies, f) (Settles-refl w)
]

reconcile_transient-Settles :
    (keys : List Ident) (host : Ident) (r : Report) (w : World)
    → Settles w (reconcile_transient keys host r w)
unfolding reconcile_transient
reconcile_transient-Settles keys host r w =
    let listing = list_sandboxes_by_host_and_status keys host transient w in
    let read = list-Settles keys host transient w in
    elim (Outcome-cases listing.0) [
      | inl (e, h) ↦ rw (reconcile_transient, h) (read)
      | inr (listed, h) ↦
          rw (reconcile_transient, h)
            (Settles-trans w listing.1 (resolve_all r listed listing.1) read
              (resolve_all-Settles r listed listing.1))
    ]

reconcile-Settles :
    (keys : List Ident) (host : Ident) (r : Report) (w : World)
    → are_distinct r.order ≡ true
    → Settles w (reconcile keys host r w)
unfolding reconcile
reconcile-Settles keys host r w d =
    let w1 = restore_missing keys host r w in
    let restored = restore_missing-Settles keys host r w in
    let listing = list_sandboxes_by_host_and_status keys host (running ∷ []) w1 in
    let w2 = listing.1 in
    let read = Settles-trans w w1 w2 restored (list-Settles keys host (running ∷ []) w1) in
    elim (Outcome-cases listing.0) [
      | inl (e, h) ↦ rw (reconcile, h) (read)
      | inr (listed, h) ↦
          let w3 = reconcile_running host r listed w2 in
          let w4 = clear_zombies keys host r w3 in
          let w5 = reconcile_transient keys host r w4 in
          let live = list-AllLive r keys host (running ∷ []) w1 listed refl h in
          rw (reconcile, h)
            (Settles-trans w w2 w5 read (
              Settles-trans w2 w3 w5 (reconcile_running-Settles host r listed w2 d live) (
                Settles-trans w3 w4 w5 (clear_zombies-Settles keys host r w3)
                  (reconcile_transient-Settles keys host r w4))))
    ]

abbrev orders : Option Report → List SandboxStatus
orders none = []
orders (some r) = r.order

-- Whatever the database and the host do, when no status comes twice in the order in which a check
-- takes its groups: a check of a host keeps every row of the sandboxes table, and each one that is
-- stopped or has failed as it is; and each volume is left as it is, or was the volume of a capsule
-- that is stopped or has failed after the check.
pub check_host-Settles :
    (keys : List Ident) (host : Ident) (stale : Bool) (status : HostStatus) (report : Option Report)
    (w : World)
    → are_distinct (orders report) ≡ true
    → Settles w (check_host keys host stale status report w)
unfolding check_host
check_host-Settles keys host stale unreachable report w d = Settles-refl w
check_host-Settles keys host true online report w d = mark-Settles host w
check_host-Settles keys host true other report w d = mark-Settles host w
check_host-Settles keys host false other report w d = Settles-refl w
check_host-Settles keys host false online none w d = Settles-refl w
check_host-Settles keys host false online (some r) w d = reconcile-Settles keys host r w d
