-- ===== src/Capsules/Monitor/Stages.antt =====
-- The stages of the host monitor (internal/api/host_monitor.go) on many rows at once: each leaves the
-- capsules that are stopped or have failed as they are.
use wrenn.Prelude.{
  ◌≡◌, refl, subst, inl, inr, Bool, true, false, not, ◌&&◌, List, [], ◌∷◌, Option, none, some,
  if◌then◌else◌, arith, Bool-cases, Outcome-cases, and_parts,
}
use wrenn.Volumes.{Ident, has_id}
use wrenn.Capsules.{SandboxStatus, running, missing, is_in, World}
use wrenn.Capsules.Edges.{is_in→≡}
use wrenn.Capsules.Monitor.{
  Report, stop_all, alive_in, is_absent, reports, keys_where, group, restore_groups, sync_ids,
  sync_groups, restore_missing, reconcile_running,
}
use wrenn.Capsules.Bulk.{
  Listed, list_sandboxes_by_host_and_status, bulk_update_status_by_ids, one_of,
}
use wrenn.Capsules.Monitor.Settled.{Settles, Settles-refl, Settles-trans, list-Settles, IsLive}
use wrenn.Capsules.Monitor.Listing.{
  any_report, AllLive, keys_where-has, keys_where-misses, IsLive-row, list-AllLive,
}
use wrenn.Capsules.Monitor.Groups.{
  stop_all-Settles, stop_all_passes, update_group-Settles, update_group_passes,
  restore_groups-Settles, restore_groups_passes,
}

-- The statuses of the groups, none of which comes twice: a map has each of its keys once.
abbrev pub are_distinct : List SandboxStatus → Bool
are_distinct [] = true
are_distinct (s ∷ ss) = not (one_of s ss) && are_distinct ss

abbrev pub reports_one : List SandboxStatus → Option (Option SandboxStatus) → Bool
reports_one ss none = false
reports_one ss (some none) = false
reports_one ss (some (some t)) = one_of t ss

-- The rows that the groups to come will write.
abbrev pub AreDue : List SandboxStatus → Report → Listed → World → Type 0
AreDue ss r listed w =
    (k : Ident)
    → has_id k (keys_where any_report r listed) ≡ true
    → reports_one ss (alive_in r.reported k) ≡ true
    → IsLive k w

first_due :
    (s : SandboxStatus) (ss : List SandboxStatus) (a : Option (Option SandboxStatus))
    → reports s a ≡ true
    → reports_one (s ∷ ss) a ≡ true
first_due s ss none h = cc
first_due s ss (some none) h = cc
first_due s ss (some (some t)) h = ground (arith, h)

later_due :
    (s : SandboxStatus) (ss : List SandboxStatus) (a : Option (Option SandboxStatus))
    → reports_one ss a ≡ true
    → reports_one (s ∷ ss) a ≡ true
later_due s ss none h = cc
later_due s ss (some none) h = cc
later_due s ss (some (some t)) h = ground (arith, h)

not_first :
    (s : SandboxStatus) (ss : List SandboxStatus) (a : Option (Option SandboxStatus))
    → not (one_of s ss) ≡ true
    → reports_one ss a ≡ true
    → reports s a ≡ false
not_first s ss none n h = refl
not_first s ss (some none) n h = refl
not_first s ss (some (some t)) n h = elim (Bool-cases (is_in t s)) [
  | inl e ↦ let one = subst (λ x. one_of x ss ≡ true) (is_in→≡ t s e) h in ground (arith, n, one)
  | inr e ↦ e
]

sync_ids-has :
    (s : SandboxStatus) (r : Report) (listed : Listed) (k : Ident)
    → has_id k (sync_ids s r listed) ≡ true
    → (reports s (alive_in r.reported k) ≡ true)
      × (has_id k (keys_where any_report r listed) ≡ true)
sync_ids-has s r listed k h = elim (Bool-cases (is_in s running)) [
  | inl e ↦
      let no =
        subst (λ b. has_id k (if b then [] else keys_where (reports s) r listed) ≡ true) e h in
      cc
  | inr e ↦
      keys_where-has (reports s) r listed k
        (subst (λ b. has_id k (if b then [] else keys_where (reports s) r listed) ≡ true) e h)
]

sync_ids-misses :
    (s : SandboxStatus) (r : Report) (listed : Listed) (k : Ident)
    → reports s (alive_in r.reported k) ≡ false
    → has_id k (sync_ids s r listed) ≡ false
sync_ids-misses s r listed k h = elim (Bool-cases (is_in s running)) [
  | inl e ↦ rw e (refl)
  | inr e ↦ rw e (keys_where-misses (reports s) r listed k h)
]

sync_groups-Settles :
    (ss : List SandboxStatus) (r : Report) (listed : Listed) (w : World)
    → are_distinct ss ≡ true
    → AreDue ss r listed w
    → Settles w (sync_groups ss r listed w)
unfolding sync_groups
sync_groups-Settles [] r listed w d due = Settles-refl w
sync_groups-Settles (s ∷ ss) r listed w d due =
    let (first, later) = and_parts (not (one_of s ss)) (are_distinct ss) d in
    let ids = sync_ids s r listed in
    let w' = group (λ ids v. (bulk_update_status_by_ids ids s v).1) ids w in
    Settles-trans w w' (sync_groups ss r listed w')
      (update_group-Settles ids s w (λ k there.
        let (met, is_listed) = sync_ids-has s r listed k there in
        due k is_listed (first_due s ss (alive_in r.reported k) met)))
      (sync_groups-Settles ss r listed w' later (λ k is_listed one.
        IsLive-row k w w'
          (update_group_passes ids s w k
            (sync_ids-misses s r listed k (not_first s ss (alive_in r.reported k) first one)))
          (due k is_listed (later_due s ss (alive_in r.reported k) one))))

reported_not_absent :
    (ss : List SandboxStatus) (a : Option (Option SandboxStatus))
    → reports_one ss a ≡ true
    → is_absent a ≡ false
reported_not_absent ss none h = cc
reported_not_absent ss (some a) h = refl

-- A listing that is not answered stops its stage; the others settle it.
pub restore_missing-Settles :
    (keys : List Ident) (host : Ident) (r : Report) (w : World)
    → Settles w (restore_missing keys host r w)
unfolding restore_missing
restore_missing-Settles keys host r w =
    let listing = list_sandboxes_by_host_and_status keys host (missing ∷ []) w in
    let w' = listing.1 in
    let read = list-Settles keys host (missing ∷ []) w in
    elim (Outcome-cases listing.0) [
      | inl (e, h) ↦ rw (restore_missing, h) (read)
      | inr (listed, h) ↦
          let restored = restore_groups r.order r listed w' in
          let ids = keys_where is_absent r listed in
          let done = stop_all ids restored in
          let live = list-AllLive r keys host (missing ∷ []) w listed refl h in
          rw (restore_missing, h)
            (Settles-trans w w' done read (
              Settles-trans w' restored done (restore_groups-Settles r.order r listed w') (
                stop_all-Settles ids restored (λ k there.
                  let (absent, is_listed) = keys_where-has is_absent r listed k there in
                  IsLive-row k w' restored (restore_groups_passes r.order r listed w' k absent)
                    (live k is_listed)))))
    ]

pub reconcile_running-Settles :
    (host : Ident) (r : Report) (listed : Listed) (w : World)
    → are_distinct r.order ≡ true
    → AllLive r listed w
    → Settles w (reconcile_running host r listed w)
unfolding reconcile_running
reconcile_running-Settles host r listed w d live =
    let ids = keys_where is_absent r listed in
    let stopped_all = stop_all ids w in
    Settles-trans w stopped_all (sync_groups r.order r listed stopped_all)
      (stop_all-Settles ids w (λ k there. live k (keys_where-has is_absent r listed k there).1))
      (sync_groups-Settles r.order r listed stopped_all d (λ k is_listed one.
        IsLive-row k w stopped_all
          (stop_all_passes ids w k (
            keys_where-misses is_absent r listed k
              (reported_not_absent r.order (alive_in r.reported k) one)))
          (live k is_listed)))
