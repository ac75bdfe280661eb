-- ===== src/Capsules/Begins.antt =====
-- Creating a capsule keeps to the transitions.
use wrenn.Prelude.{
  ℕ, ◌≡◌, inl, inr, refl, ap, ◌∙◌, Bool, true, false, ◌&&◌, ◌||◌, ltb, List, Option, none, some,
  if◌then◌else◌, text_eq, text_eq→≡, Outcome-cases, err, ok, Bool-cases, Option-cases,
}
use wrenn.Volumes.{Ident, Fault-cases}
use wrenn.Volumes.Reserve.{release_volume_reservations, mark_volumes_attached}
use wrenn.Capsules.{
  insert_row, statement, is_in, running, SandboxStatus, fails, panics, starting, error, Sandbox,
  World, update_sandbox_running_if, update_sandbox_disk_size, insert_sandbox, Result, with_db,
}
use wrenn.Capsules.Change.{persist_system_metadata}
use wrenn.Capsules.Edges.{on, still, status_if-Follows, running_if-Follows, disk-Follows}
use wrenn.Capsules.Lifecycle.{FollowsAll, all_refl, all_same, same_all, persist_follows}
use wrenn.Capsules.{set_row}
use wrenn.Capsules.Create.{
  Lookups, CreateParams, Plan, Host, Boot, Booted, new_sandbox, insert, placed, reserved_for,
  find_host, create, plan, create_in_background, boot_failed, boot_done,
}
use wrenn.Volumes.Reserve.{ReservedVolume, Reserving, reserve_volumes_for_create}

-- What a create does to a row: it is as it was, or new and starting.
abbrev pub Opens : Option Sandbox → Option Sandbox → Type 0
Opens none none = Unit {0}
Opens none (some w) = w.status ≡ starting
Opens (some v) none = ⊥
Opens (some v) (some w) = v ≡ w

Opens-refl : (r : Option Sandbox) → Opens r r
Opens-refl none = tt
Opens-refl (some v) = refl

abbrev pub OpensAll : World → World → Type 0
OpensAll w v = (k : Ident) → Opens (w.sandboxes k) (v.sandboxes k)

opens_refl : (w : World) → OpensAll w w
opens_refl w k = Opens-refl (w.sandboxes k)

set-Opens :
    (id k : Ident) (v : Sandbox) (rows : Ident → Option Sandbox)
    → rows id ≡ none
    → v.status ≡ starting
    → Opens (rows k) (set_row id v rows k)
set-Opens id k v rows free status = elim (Bool-cases (text_eq k id)) [
  | inl e ↦
      let here : rows k ≡ none = ap rows (text_eq→≡ k id e) ∙ free in rw (set_row, e, here) status
  | inr e ↦ rw (set_row, e) (Opens-refl (rows k))
]

insert_row-Opens :
    (k : Ident) (v : Sandbox) (rows : Ident → Option Sandbox)
    → v.status ≡ starting
    → Opens (rows k) ((insert_row v rows).1 k)
insert_row-Opens k v rows status = elim (Option-cases (rows v.id)) [
  | inl e ↦ rw (insert_row, e) (set-Opens v.id k v rows e status)
  | inr (u, e) ↦ rw (insert_row, e) (Opens-refl (rows k))
]

insert_sandbox_opens :
    (p : Plan) (h : Host) (w : World) → OpensAll w (insert_sandbox (new_sandbox p h) w).1
unfolding insert_sandbox
insert_sandbox_opens p h w k =
    let now = (w.db.turn w.db.calls).now in
    let done = insert_row-Opens k (new_sandbox p h now) w.sandboxes refl in
    elim (Fault-cases (w.db.turn w.db.calls).fault) [
      | inl e ↦ rw (insert_sandbox, statement, e) done
      | inr (inl e) ↦ rw (insert_sandbox, statement, e) (Opens-refl (w.sandboxes k))
      | inr (inr e) ↦ rw (insert_sandbox, statement, e) done
    ]

insert_opens :
    (p : Plan) (h : Host) (reserved : List ReservedVolume) (w : World)
    → OpensAll w (insert p h reserved w).1
insert_opens p h reserved w = elim (Outcome-cases (insert_sandbox (new_sandbox p h) w).0) [
  | inl (x, r) ↦ rw (insert, r) (insert_sandbox_opens p h w)
  | inr (sb, r) ↦ rw (insert, r) (insert_sandbox_opens p h w)
]

placed_opens :
    (p : Plan) (reserved : List ReservedVolume) (r : Result Host) (w : World)
    → OpensAll w (placed p reserved r w).1
placed_opens p reserved (err (fails e)) w = opens_refl w
placed_opens p reserved (err panics) w = opens_refl w
placed_opens p reserved (ok h) w = insert_opens p h reserved w

reserved_for_opens :
    (look : Lookups) (p : Plan) (is_byoc : Bool) (r : Reserving) (w : World)
    → OpensAll w (reserved_for look p is_byoc r w).1
reserved_for_opens look p is_byoc (err e, d) w = opens_refl w
reserved_for_opens look p is_byoc (ok (reserved, pinned), d) w =
    placed_opens p reserved (find_host look pinned is_byoc p) (with_db d w)

pub create_opens :
    (look : Lookups) (id : Ident) (p : CreateParams) (w : World) → OpensAll w (create look id p w).1
unfolding create
create_opens look id p w = elim (Outcome-cases (plan look id p)) [
  | inl (e, r) ↦ rw (create, r) (opens_refl w)
  | inr ((q, is_byoc), r) ↦
      rw (create, r)
        (reserved_for_opens look q is_byoc
          (reserve_volumes_for_create look.volumes_available q.team q.volume_refs w.db) w)
]

-- How a boot ends: the capsule runs, or has failed.
abbrev pub end_boot : SandboxStatus → SandboxStatus → Bool
end_boot a b = is_in a starting && (is_in b running || is_in b error)

boot_failed_follows :
    (b : Boot) (gone : Bool) (w : World)
    → FollowsAll (on b.sandbox.id end_boot) w (boot_failed b gone w)
unfolding boot_failed
boot_failed_follows b true w = λ k.
    status_if-Follows end_boot b.sandbox.id k starting error
      (with_db (release_volume_reservations b.reserved w.db) w) refl
boot_failed_follows b false w = all_refl (on b.sandbox.id end_boot) w

sized_follows :
    (b : Boot) (size : ℕ) (w : World)
    → FollowsAll still w (if ltb 0 size then update_sandbox_disk_size b.sandbox.id size w else w)
sized_follows b size w = elim (Bool-cases (ltb 0 size)) [
  | inl e ↦ rw e (λ k. disk-Follows b.sandbox.id k size w)
  | inr e ↦ rw e (all_refl still w)
]

boot_done_follows :
    (b : Boot) (r : Booted) (w : World) → FollowsAll (on b.sandbox.id end_boot) w (boot_done b r w)
unfolding boot_done
boot_done_follows b r w =
    let id = b.sandbox.id in
    let attached = with_db (mark_volumes_attached r.expired b.reserved b.host_id id w.db) w in
    let sized =
      if ltb 0 r.disk_size_mb
      then update_sandbox_disk_size id r.disk_size_mb attached
      else attached in
    let run = (update_sandbox_running_if id starting r.ip sized).1 in
    let edge = on id end_boot in
    same_all edge w sized (persist_system_metadata id b.labels r.system run)
      (sized_follows b r.disk_size_mb attached)
      (all_same edge sized run (persist_system_metadata id b.labels r.system run)
        (λ k. running_if-Follows end_boot id k starting r.ip sized refl)
        (persist_follows id b.labels r.system run))

pub create_background_follows :
    (b : Boot) (reply : Option Booted) (gone : Bool) (w : World)
    → FollowsAll (on b.sandbox.id end_boot) w (create_in_background b reply gone w)
unfolding create_in_background
create_background_follows b none gone w = boot_failed_follows b gone w
create_background_follows b (some r) gone w = boot_done_follows b r w
