-- ===== src/Capsules/Snapshots.antt =====
-- Snapshotting keeps to the transitions.
use wrenn.Prelude.{
  ◌≡◌, inl, inr, refl, Bool, true, false, not, ◌&&◌, ◌||◌, if◌then◌else◌, Text, Outcome-cases, err,
  ok, arith, Bool-cases, is_nil,
}
use wrenn.Validate.{safe_name}
use wrenn.Volumes.{Ident}
use wrenn.Capsules.{
  SandboxStatus, running, paused, snapshotting, is_in, Sandbox, World, get_sandbox_by_team,
  update_sandbox_status_if, Result,
}
use wrenn.Capsules.Change.{
  Reach, claimed, create_snapshot, snapshot_found, snapshot_named, announced,
  snapshot_in_background,
}
use wrenn.Capsules.Edges.{only, only_refl, on, still, status_if-Follows, get_rows}
use wrenn.Capsules.Lifecycle.{FollowsAll, all_refl, same_all, all_same, rows_same, cas_follows}

-- The statuses that a snapshot starts from and goes back to.
abbrev pub is_settled : SandboxStatus → Bool
is_settled s = is_in s running || is_in s paused

-- How a snapshot begins.
abbrev pub begin_snapshot : SandboxStatus → SandboxStatus → Bool
begin_snapshot a b = is_settled a && is_in b snapshotting

settled_out : (s : SandboxStatus) → is_settled s ≡ true → begin_snapshot s snapshotting ≡ true
settled_out s h = ground arith

announced_rows :
    (id : Ident) (from : SandboxStatus) (r : Result Sandbox) (w : World)
    → (announced id from (r, w)).1.sandboxes ≡ w.sandboxes
announced_rows id from (err e) w = refl
announced_rows id from (ok sb) w = refl

snapshot_named_follows :
    (id : Ident) (reach : Reach) (taken : Bool) (sb : Sandbox) (w : World)
    → is_settled sb.status ≡ true
    → FollowsAll (on id begin_snapshot) w (snapshot_named id reach taken sb w).1
snapshot_named_follows id reach true sb w h = all_refl (on id begin_snapshot) w
snapshot_named_follows id reach false sb w h =
    let from = sb.status in
    let v = (update_sandbox_status_if id from snapshotting w).1 in
    let c = claimed id from snapshotting reach sb v in
    elim (Outcome-cases (update_sandbox_status_if id from snapshotting w).0) [
      | inl (x, r) ↦
          rw (snapshot_named, r)
            (λ k. status_if-Follows begin_snapshot id k from snapshotting w (settled_out from h))
      | inr (x, r) ↦
          rw (snapshot_named, r)
            (all_same (on id begin_snapshot) w c.1 (announced id from c).1
              (cas_follows begin_snapshot id from snapshotting reach sb x w (settled_out from h) r)
              (rows_same still c.1 (announced id from c).1 (announced_rows id from c.0 c.1)))
    ]

snapshot_found_follows :
    (id : Ident) (name : Text) (taken : Text → Bool) (reach : Reach) (sb : Sandbox) (w : World)
    → FollowsAll (on id begin_snapshot) w (snapshot_found id name taken reach sb w).1
snapshot_found_follows id name taken reach sb w =
    elim (Bool-cases (not (is_in sb.status running) && not (is_in sb.status paused))) [
      | inl e ↦ rw (snapshot_found, e) (all_refl (on id begin_snapshot) w)
      | inr e ↦ elim (Outcome-cases (safe_name name)) [
        | inl (x, r) ↦ rw (snapshot_found, e, r) (all_refl (on id begin_snapshot) w)
        | inr (x, r) ↦
            let settled : is_settled sb.status ≡ true = ground arith in
            rw (snapshot_found, e, r) (snapshot_named_follows id reach (taken name) sb w settled)
      ]
    ]

pub snapshot_follows :
    (id team : Ident) (name fresh : Text) (taken : Text → Bool) (reach : Reach) (w : World)
    → FollowsAll (on id begin_snapshot) w (create_snapshot id team name fresh taken reach w).1
unfolding create_snapshot
snapshot_follows id team name fresh taken reach w =
    let edge = on id begin_snapshot in
    let v = (get_sandbox_by_team id team w).1 in
    let chosen = if is_nil name then fresh else name in
    let read = rows_same still w v (get_rows id team w) in
    elim (Outcome-cases (get_sandbox_by_team id team w).0) [
      | inl (x, r) ↦ rw (create_snapshot, r) (rows_same edge w v (get_rows id team w))
      | inr (sb, r) ↦
          rw (create_snapshot, r)
            (same_all edge w v (snapshot_found id chosen taken reach sb v).1 read
              (snapshot_found_follows id chosen taken reach sb v))
    ]

pub snapshot_background_follows :
    (id : Ident) (name : Text) (origin : SandboxStatus) (done registered : Bool) (w : World)
    → FollowsAll
        (on id (only snapshotting origin))
        w
        (snapshot_in_background id name origin done registered w)
unfolding snapshot_in_background
snapshot_background_follows id name origin done registered w =
    let edge = only snapshotting origin in
    let u = update_sandbox_status_if id snapshotting origin w in
    let moved : FollowsAll (on id edge) w u.1 =
      λ k. status_if-Follows edge id k snapshotting origin w (only_refl snapshotting origin) in
    elim (Bool-cases (done && registered)) [
      | inl e ↦ elim (Outcome-cases u.0) [
        | inl (x, r) ↦ rw (snapshot_in_background, e, r) moved
        | inr (x, r) ↦ rw (snapshot_in_background, e, r) moved
      ]
      | inr e ↦ elim (Outcome-cases u.0) [
        | inl (x, r) ↦ rw (snapshot_in_background, e, r) moved
        | inr (x, r) ↦ rw (snapshot_in_background, e, r) moved
      ]
    ]
