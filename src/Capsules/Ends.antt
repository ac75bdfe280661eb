-- ===== src/Capsules/Ends.antt =====
-- Destroying a capsule keeps to the transitions.
use wrenn.Prelude.{inl, inr, refl, true, Bool, ◌||◌, [], Outcome-cases, Bool-cases}
use wrenn.Volumes.{Ident}
use wrenn.Volumes.Statements.{detach_volumes_by_sandbox}
use wrenn.Capsules.{
  publish, destroy_failed, sandbox_stopped, SandboxStatus, stopping, stopped, error, is_in, Sandbox,
  World, get_sandbox, update_sandbox_status_if, update_sandbox_status, update_row, move, with_db,
}
use wrenn.Capsules.Change.{
  Reach, destroy_found, destroy_in_background, tear_down, Attempts, confirmed, unconfirmed, gave_up,
}
use wrenn.Capsules.Edges.{
  only, on, still, Follows, status_if-Follows, get_all_rows, update-Follows, statement-Follows,
}
use wrenn.Capsules.Lifecycle.{FollowsAll, all_refl, same_all, rows_same}

-- How a destroy begins, from whatever status the row has by then.
abbrev pub begin_destroy : SandboxStatus → SandboxStatus → Bool
begin_destroy a b = is_in b stopping

status-Follows :
    (id k : Ident) (w : World)
    → Follows
        (on id begin_destroy k)
        (w.sandboxes k)
        ((update_sandbox_status id stopping w).1.sandboxes k)
unfolding update_sandbox_status
status-Follows id k w =
    statement-Follows (on id begin_destroy k)
      (λ now rows. update_row id (λ v. true) (move stopping now) rows) k w
      (update-Follows (on id begin_destroy k) id k (λ v. true)
        (move stopping (w.db.turn w.db.calls).now) w.sandboxes (λ v same t. inr (rw same refl)))

pub destroy_found_follows :
    (id : Ident) (reach : Reach) (sb : Sandbox) (w : World)
    → FollowsAll (on id begin_destroy) w (destroy_found id reach sb w).1
destroy_found_follows id reach sb w =
    let edge = on id begin_destroy in
    elim (Bool-cases (is_in sb.status stopped || is_in sb.status error)) [
      | inl e ↦ rw (destroy_found, e) (all_refl edge w)
      | inr e ↦
          let v = (get_sandbox id w).1 in
          let same = get_all_rows id w in
          let read = rows_same edge w v same in
          let marks =
            same_all edge w v (update_sandbox_status id stopping v).1 (rows_same still w v same)
              (λ k. status-Follows id k v) in
          elim (Outcome-cases (get_sandbox id w).0) [
            | inl (x, r) ↦ rw (destroy_found, e, r) read
            | inr (x, r) ↦ elim (Outcome-cases reach) [
              | inl (y, z) ↦ rw (destroy_found, e, r, z) read
              | inr (y, z) ↦ elim (Outcome-cases (update_sandbox_status id stopping v).0) [
                | inl (q, m) ↦ rw (destroy_found, e, r, z, m) marks
                | inr (q, m) ↦ rw (destroy_found, e, r, z, m) marks
              ]
            ]
          ]
    ]

pub destroy_background_follows :
    (id : Ident) (calls : Attempts) (w : World)
    → FollowsAll (on id (only stopping stopped)) w (destroy_in_background id calls w)
unfolding destroy_in_background tear_down
destroy_background_follows id calls w =
    let edge = on id (only stopping stopped) in
    elim (tear_down 3 0 calls)
      as (λ t. FollowsAll (on id (only stopping stopped)) w (elim t [
        | gave_up ↦ w
        | unconfirmed ↦ publish destroy_failed id [] w
        | confirmed ↦
            let freed = with_db (detach_volumes_by_sandbox id w.db).1 w in
            publish sandbox_stopped id [] (update_sandbox_status_if id stopping stopped freed).1
      ])) [
        | gave_up ↦ all_refl edge w
        | unconfirmed ↦ all_refl edge w
        | confirmed ↦ λ k.
            status_if-Follows (only stopping stopped) id k stopping stopped
              (with_db (detach_volumes_by_sandbox id w.db).1 w) refl
      ]
