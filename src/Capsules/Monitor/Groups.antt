-- ===== src/Capsules/Monitor/Groups.antt =====
-- The groups of rows that the host monitor (internal/api/host_monitor.go) stops or restores at once.
use wrenn.Prelude.{
  ◌≡◌, refl, ap, ◌∙◌, inl, inr, true, false, List, [], ◌∷◌, Option, none, some, ok, Outcome-cases,
}
use wrenn.Volumes.{Ident, has_id}
use wrenn.Capsules.{SandboxStatus, stopped, World, move}
use wrenn.Capsules.Monitor.{
  Report, detach_all, stop_all, alive_in, is_absent, reports, keys_where, group, restore_groups,
}
use wrenn.Capsules.Bulk.{
  Listed, bulk_update_status_by_ids, bulk_restore_missing_to_status, change_if,
}
use wrenn.Capsules.Monitor.Settled.{
  Settles, Settles-refl, Settles-trans, restore-Settles, update-Settles, detach-Settles, AreLive,
  AreOver, detach_rows,
}
use wrenn.Capsules.Monitor.Listing.{update_passes, restore_passes, keys_where-misses, answered}

-- The update of live rows to stopped, and the freeing of their volumes.
stop_answered :
    (ids : List Ident) (w : World)
    → AreLive ids w
    → (bulk_update_status_by_ids ids stopped w).0 ≡ ok tt
    → AreOver ids (bulk_update_status_by_ids ids stopped w).1
unfolding bulk_update_status_by_ids
stop_answered ids w live h k there =
    let (same, rows) =
      answered (λ now rows. (ok tt, λ k. change_if (λ v. has_id k ids) (move stopped now) (rows k)))
        w tt h in
    let (v, at, o) = live k there in
    (
      move stopped (w.db.turn w.db.calls).now v,
      ap (λ f. f k) rows ∙ rw (change_if, at, there) (refl),
      refl,
    )

pub stop_all-Settles : (ids : List Ident) (w : World) → AreLive ids w → Settles w (stop_all ids w)
unfolding stop_all
stop_all-Settles [] w live = Settles-refl w
stop_all-Settles (k ∷ ks) w live =
    let ids = k ∷ ks in
    let w' = (bulk_update_status_by_ids ids stopped w).1 in
    let written = update-Settles ids stopped w live in
    elim (Outcome-cases (bulk_update_status_by_ids ids stopped w).0) [
      | inl (e, h) ↦ rw (stop_all, h) (written)
      | inr (u, h) ↦
          rw (stop_all, h)
            (Settles-trans w w' (detach_all ids w') written
              (detach-Settles ids w' (stop_answered ids w live h)))
    ]

pub stop_all_passes :
    (ids : List Ident) (w : World) (k : Ident)
    → has_id k ids ≡ false
    → (stop_all ids w).sandboxes k ≡ w.sandboxes k
unfolding stop_all
stop_all_passes [] w k h = refl
stop_all_passes (j ∷ js) w k h =
    elim (Outcome-cases (bulk_update_status_by_ids (j ∷ js) stopped w).0) [
      | inl (e, a) ↦ rw (stop_all, a) (update_passes (j ∷ js) stopped w k h)
      | inr (u, a) ↦
          rw (stop_all, a)
            (ap (λ f. f k) (detach_rows (j ∷ js) (bulk_update_status_by_ids (j ∷ js) stopped w).1)
              ∙ update_passes (j ∷ js) stopped w k h)
    ]

restore_group-Settles :
    (ids : List Ident) (s : SandboxStatus) (w : World)
    → Settles w (group (λ ids v. (bulk_restore_missing_to_status ids s v).1) ids w)
restore_group-Settles [] s w = Settles-refl w
restore_group-Settles (k ∷ ks) s w = restore-Settles (k ∷ ks) s w

restore_group_passes :
    (ids : List Ident) (s : SandboxStatus) (w : World) (k : Ident)
    → has_id k ids ≡ false
    → (group (λ ids v. (bulk_restore_missing_to_status ids s v).1) ids w).sandboxes k
      ≡ w.sandboxes k
restore_group_passes [] s w k h = refl
restore_group_passes (j ∷ js) s w k h = restore_passes (j ∷ js) s w k h

pub update_group-Settles :
    (ids : List Ident) (s : SandboxStatus) (w : World)
    → AreLive ids w
    → Settles w (group (λ ids v. (bulk_update_status_by_ids ids s v).1) ids w)
update_group-Settles [] s w live = Settles-refl w
update_group-Settles (k ∷ ks) s w live = update-Settles (k ∷ ks) s w live

pub update_group_passes :
    (ids : List Ident) (s : SandboxStatus) (w : World) (k : Ident)
    → has_id k ids ≡ false
    → (group (λ ids v. (bulk_update_status_by_ids ids s v).1) ids w).sandboxes k ≡ w.sandboxes k
update_group_passes [] s w k h = refl
update_group_passes (j ∷ js) s w k h = update_passes (j ∷ js) s w k h

absent_no_report :
    (s : SandboxStatus) (a : Option (Option SandboxStatus))
    → is_absent a ≡ true
    → reports s a ≡ false
absent_no_report s none h = refl
absent_no_report s (some a) h = cc

-- Restoring the missing capsules that the host has.
pub restore_groups-Settles :
    (ss : List SandboxStatus) (r : Report) (listed : Listed) (w : World)
    → Settles w (restore_groups ss r listed w)
unfolding restore_groups
restore_groups-Settles [] r listed w = Settles-refl w
restore_groups-Settles (s ∷ ss) r listed w =
    let ids = keys_where (reports s) r listed in
    let w' = group (λ ids v. (bulk_restore_missing_to_status ids s v).1) ids w in
    Settles-trans w w' (restore_groups ss r listed w') (restore_group-Settles ids s w)
      (restore_groups-Settles ss r listed w')

pub restore_groups_passes :
    (ss : List SandboxStatus) (r : Report) (listed : Listed) (w : World) (k : Ident)
    → is_absent (alive_in r.reported k) ≡ true
    → (restore_groups ss r listed w).sandboxes k ≡ w.sandboxes k
unfolding restore_groups
restore_groups_passes [] r listed w k h = refl
restore_groups_passes (s ∷ ss) r listed w k h =
    let ids = keys_where (reports s) r listed in
    let w' = group (λ ids v. (bulk_restore_missing_to_status ids s v).1) ids w in
    restore_groups_passes ss r listed w' k h
    ∙ restore_group_passes ids s w k
        (keys_where-misses (reports s) r listed k (absent_no_report s (alive_in r.reported k) h))
