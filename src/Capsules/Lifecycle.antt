-- ===== src/Capsules/Lifecycle.antt =====
-- Pausing and resuming keep to the transitions.
use wrenn.Prelude.{
  ◌≡◌, inl, inr, refl, sym, subst, Bool, true, false, ◌&&◌, ◌||◌, Option, none, some, Text,
  Outcome-cases, err, ok, Bool-cases,
}
use wrenn.Volumes.{Ident}
use wrenn.Capsules.{
  SandboxStatus, running, pausing, paused, resuming, is_in, Labels, Sandbox, World,
  get_sandbox_by_team, get_sandbox, update_sandbox_status_if, update_sandbox_running_if,
  update_sandbox_metadata,
}
use wrenn.Capsules.Change.{
  Reach, pause, pause_found, claimed, pause_in_background, resume, resume_found,
  resume_in_background, refresh_metadata, persist_system_metadata, labels_of, no_labels,
  merge_labels,
}
use wrenn.Capsules.Edges.{
  only, only_refl, on, still, Follows, Follows-refl, same-Follows, Follows-same, status_if-Follows,
  running_if-Follows, status_if-found, back-Follows, metadata-Follows, get_rows, get_all_rows,
}

-- Every row follows the transitions that a call makes of it.
abbrev pub FollowsAll : (Ident → SandboxStatus → SandboxStatus → Bool) → World → World → Type 0
FollowsAll edge w v = (k : Ident) → Follows (edge k) (w.sandboxes k) (v.sandboxes k)

pub all_refl :
    (edge : Ident → SandboxStatus → SandboxStatus → Bool) (w : World) → FollowsAll edge w w
all_refl edge w k = Follows-refl (edge k) (w.sandboxes k)

pub same_all :
    (edge : Ident → SandboxStatus → SandboxStatus → Bool) (u v w : World)
    → FollowsAll still u v
    → FollowsAll edge v w
    → FollowsAll edge u w
same_all edge u v w h g k =
    same-Follows (edge k) (u.sandboxes k) (v.sandboxes k) (w.sandboxes k) (h k) (g k)

pub all_same :
    (edge : Ident → SandboxStatus → SandboxStatus → Bool) (u v w : World)
    → FollowsAll edge u v
    → FollowsAll still v w
    → FollowsAll edge u w
all_same edge u v w h g k =
    Follows-same (edge k) (u.sandboxes k) (v.sandboxes k) (w.sandboxes k) (h k) (g k)

pub rows_same :
    (edge : Ident → SandboxStatus → SandboxStatus → Bool) (w v : World)
    → v.sandboxes ≡ w.sandboxes
    → FollowsAll edge w v
rows_same edge w v e k =
    subst (λ r. Follows (edge k) (w.sandboxes k) (r k)) (sym e)
      (Follows-refl (edge k) (w.sandboxes k))

-- A claim by compare and swap, and what follows it.
pub cas_follows :
    (edge : SandboxStatus → SandboxStatus → Bool) (id : Ident) (from to : SandboxStatus)
    (reach : Reach) (sb got : Sandbox) (w : World)
    → edge from to ≡ true
    → (update_sandbox_status_if id from to w).0 ≡ ok got
    → FollowsAll
        (on id edge)
        w
        (claimed id from to reach sb (update_sandbox_status_if id from to w).1).1
cas_follows edge id from to (err e) sb got w h claims = λ k.
    let v = (update_sandbox_status_if id from to w).1 in
    back-Follows edge id k from to (w.sandboxes k) (v.sandboxes k)
      ((update_sandbox_status_if id to from v).1.sandboxes k) h
      (λ x at same. status_if-found id k from to got x w claims at same)
      (status_if-Follows (only from to) id k from to w (only_refl from to))
      (status_if-Follows (only to from) id k to from v (only_refl to from))
cas_follows edge id from to (ok x) sb got w h claims = λ k. status_if-Follows edge id k from to w h

pause_found_follows :
    (id : Ident) (reach : Reach) (sb : Sandbox) (w : World)
    → FollowsAll (on id (only running pausing)) w (pause_found id reach sb w).1
pause_found_follows id reach sb w =
    let edge = only running pausing in
    elim (Bool-cases (is_in sb.status paused)) [
      | inl e ↦ rw (pause_found, e) (all_refl (on id edge) w)
      | inr e ↦ elim (Outcome-cases (update_sandbox_status_if id running pausing w).0) [
        | inl (x, r) ↦
            rw (pause_found, e, r) (λ k. status_if-Follows edge id k running pausing w refl)
        | inr (x, r) ↦
            rw (pause_found, e, r) (cas_follows edge id running pausing reach sb x w refl r)
      ]
    ]

pub pause_follows :
    (id team : Ident) (reach : Reach) (w : World)
    → FollowsAll (on id (only running pausing)) w (pause id team reach w).1
unfolding pause
pause_follows id team reach w =
    let edge = on id (only running pausing) in
    let v = (get_sandbox_by_team id team w).1 in
    let read = rows_same still w v (get_rows id team w) in
    elim (Outcome-cases (get_sandbox_by_team id team w).0) [
      | inl (x, r) ↦ rw (pause, r) (rows_same edge w v (get_rows id team w))
      | inr (sb, r) ↦
          rw (pause, r)
            (same_all edge w v (pause_found id reach sb v).1 read
              (pause_found_follows id reach sb v))
    ]

-- How a pause ends: the capsule is paused, or runs on.
abbrev pub end_pause : SandboxStatus → SandboxStatus → Bool
end_pause a b = is_in a pausing && (is_in b paused || is_in b running)

pub pause_background_follows :
    (id : Ident) (done : Bool) (w : World)
    → FollowsAll (on id end_pause) w (pause_in_background id done w)
unfolding pause_in_background
pause_background_follows id true w = λ k. status_if-Follows end_pause id k pausing paused w refl
pause_background_follows id false w = λ k. status_if-Follows end_pause id k pausing running w refl

resume_found_follows :
    (id : Ident) (reach : Reach) (sb : Sandbox) (w : World)
    → FollowsAll (on id (only paused resuming)) w (resume_found id reach sb w).1
resume_found_follows id reach sb w =
    let edge = only paused resuming in
    elim (Bool-cases (is_in sb.status running)) [
      | inl e ↦ rw (resume_found, e) (all_refl (on id edge) w)
      | inr e ↦ elim (Outcome-cases (update_sandbox_status_if id paused resuming w).0) [
        | inl (x, r) ↦
            rw (resume_found, e, r) (λ k. status_if-Follows edge id k paused resuming w refl)
        | inr (x, r) ↦
            rw (resume_found, e, r) (cas_follows edge id paused resuming reach sb x w refl r)
      ]
    ]

pub resume_follows :
    (id team : Ident) (reach : Reach) (w : World)
    → FollowsAll (on id (only paused resuming)) w (resume id team reach w).1
unfolding resume
resume_follows id team reach w =
    let edge = on id (only paused resuming) in
    let v = (get_sandbox_by_team id team w).1 in
    let read = rows_same still w v (get_rows id team w) in
    elim (Outcome-cases (get_sandbox_by_team id team w).0) [
      | inl (x, r) ↦ rw (resume, r) (rows_same edge w v (get_rows id team w))
      | inr (sb, r) ↦
          rw (resume, r)
            (same_all edge w v (resume_found id reach sb v).1 read
              (resume_found_follows id reach sb v))
    ]

pub persist_follows :
    (id : Ident) (user system : Labels) (w : World)
    → FollowsAll still w (persist_system_metadata id user system w)
unfolding persist_system_metadata
persist_follows id user system w = elim (Bool-cases (no_labels system)) [
  | inl e ↦ rw (persist_system_metadata, e) (all_refl still w)
  | inr e ↦
      rw (persist_system_metadata, e) (λ k. metadata-Follows id k (merge_labels user system) w)
]

refresh_follows :
    (id : Ident) (system : Labels) (w : World) → FollowsAll still w (refresh_metadata id system w)
unfolding persist_system_metadata
refresh_follows id system w =
    let (current, v) = get_sandbox id w in
    let read = rows_same still w v (get_all_rows id w) in
    elim (Bool-cases (no_labels system)) [
      | inl e ↦ rw (refresh_metadata, e) (all_refl still w)
      | inr e ↦
          rw (refresh_metadata, e)
            (same_all still w v
              (update_sandbox_metadata id (merge_labels (labels_of current) system) v) read
              (λ k. metadata-Follows id k (merge_labels (labels_of current) system) v))
    ]

-- How a resume ends: the capsule runs, or is paused again.
abbrev pub end_resume : SandboxStatus → SandboxStatus → Bool
end_resume a b = is_in a resuming && (is_in b running || is_in b paused)

pub resume_background_follows :
    (id : Ident) (reply : Option (Text × Labels)) (w : World)
    → FollowsAll (on id end_resume) w (resume_in_background id reply w)
unfolding resume_in_background persist_system_metadata
resume_background_follows id none w = λ k. status_if-Follows end_resume id k resuming paused w refl
resume_background_follows id (some (ip, system)) w =
    let v = (update_sandbox_running_if id resuming ip w).1 in
    all_same (on id end_resume) w v (refresh_metadata id system v)
      (λ k. running_if-Follows end_resume id k resuming ip w refl) (refresh_follows id system v)
