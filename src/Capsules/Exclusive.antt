-- ===== src/Capsules/Exclusive.antt =====
-- A capsule in transition is not claimed for another one.
use wrenn.Prelude.{
  ◌≡◌, ◌≢◌, inl, inr, refl, sym, ap, ◌∙◌, Bool, true, false, some, if◌then◌else◌, Text,
  Outcome-cases, ok, arith, is_nil, is_ok,
}
use wrenn.Volumes.{Ident}
use wrenn.Capsules.{
  SandboxStatus, running, pausing, paused, resuming, is_in, Sandbox, World, get_sandbox_by_team,
  update_sandbox_status_if, Result,
}
use wrenn.Capsules.Change.{
  Reach, pause, pause_found, resume, resume_found, create_snapshot, snapshot_found,
}
use wrenn.Capsules.Edges.{get_rows}
use wrenn.Capsules.Snapshots.{is_settled}

-- A call that fails, with the table as it was.
abbrev pub Refuses : {V : Type 0} → World → Result V × World → Type 0
Refuses w r = (is_ok r.0 ≡ false) × (r.1.sandboxes ≡ w.sandboxes)

cas_missed :
    (id : Ident) (from to : SandboxStatus) (w : World) (sb : Sandbox)
    → w.sandboxes id ≡ some sb
    → is_in sb.status from ≡ false
    → (is_ok (update_sandbox_status_if id from to w).0 ≡ false)
      × ((update_sandbox_status_if id from to w).1.sandboxes ≡ w.sandboxes)
unfolding update_sandbox_status_if
cas_missed id from to w sb at h = (ground arith, ground arith)

get_row :
    (id team : Ident) (w : World) (sb v : Sandbox)
    → w.sandboxes id ≡ some sb
    → (get_sandbox_by_team id team w).0 ≡ ok v
    → v ≡ sb
unfolding get_sandbox_by_team
get_row id team w sb v at h = ground arith

unsettled :
    (s : SandboxStatus)
    → is_settled s ≡ false
    → (is_in s running ≡ false) × (is_in s paused ≡ false)
unsettled s h = (ground arith, ground arith)

pause_refused :
    (id : Ident) (reach : Reach) (w : World) (sb : Sandbox)
    → w.sandboxes id ≡ some sb
    → is_settled sb.status ≡ false
    → Refuses w (pause_found id reach sb w)
pause_refused id reach w sb at h =
    let (not_running, not_paused) = unsettled sb.status h in
    let (missed, same) = cas_missed id running pausing w sb at not_running in
    elim (Outcome-cases (update_sandbox_status_if id running pausing w).0) [
      | inl (x, r) ↦ rw (pause_found, not_paused, r) (refl, same)
      | inr (x, r) ↦ absurd (true_ne_false (ap is_ok (sym r) ∙ missed))
    ]
  where
    true_ne_false : true ≢ false
    true_ne_false e = cc

resume_refused :
    (id : Ident) (reach : Reach) (w : World) (sb : Sandbox)
    → w.sandboxes id ≡ some sb
    → is_settled sb.status ≡ false
    → Refuses w (resume_found id reach sb w)
resume_refused id reach w sb at h =
    let (not_running, not_paused) = unsettled sb.status h in
    let (missed, same) = cas_missed id paused resuming w sb at not_paused in
    elim (Outcome-cases (update_sandbox_status_if id paused resuming w).0) [
      | inl (x, r) ↦ rw (resume_found, not_running, r) (refl, same)
      | inr (x, r) ↦ absurd (true_ne_false (ap is_ok (sym r) ∙ missed))
    ]
  where
    true_ne_false : true ≢ false
    true_ne_false e = cc

snapshot_refused :
    (id : Ident) (name : Text) (taken : Text → Bool) (reach : Reach) (w : World) (sb : Sandbox)
    → is_settled sb.status ≡ false
    → Refuses w (snapshot_found id name taken reach sb w)
snapshot_refused id name taken reach w sb h =
    let (not_running, not_paused) = unsettled sb.status h in
    rw (snapshot_found, not_running, not_paused) (refl, refl)

-- Whatever the database does: while a capsule is neither running nor paused, pausing, resuming and
-- snapshotting it fail and change no capsule.
pub in_transition_refused :
    (id team : Ident) (reach : Reach) (name fresh : Text) (taken : Text → Bool) (w : World)
    (sb : Sandbox)
    → w.sandboxes id ≡ some sb
    → is_settled sb.status ≡ false
    → Refuses w (pause id team reach w)
      × Refuses w (resume id team reach w)
      × Refuses w (create_snapshot id team name fresh taken reach w)
unfolding pause resume create_snapshot
in_transition_refused id team reach name fresh taken w sb at h =
    let v = (get_sandbox_by_team id team w).1 in
    let rows = get_rows id team w in
    elim (Outcome-cases (get_sandbox_by_team id team w).0) [
      | inl (x, r) ↦
          rw (pause, resume, create_snapshot, r) ((refl, rows), (refl, rows), (refl, rows))
      | inr (got, r) ↦
          let same : got ≡ sb = get_row id team w sb got at r in
          let here : v.sandboxes id ≡ some got = ap (λ t. t id) rows ∙ (at ∙ ap some (sym same)) in
          let moving : is_settled got.status ≡ false = ap (λ x. is_settled x.status) same ∙ h in
          let p = pause_refused id reach v got here moving in
          let q = resume_refused id reach v got here moving in
          let s =
            snapshot_refused id (if is_nil name then fresh else name) taken reach v got moving in
          rw (pause, resume, create_snapshot, r)
            ((p.0, p.1 ∙ rows), (q.0, q.1 ∙ rows), (s.0, s.1 ∙ rows))
    ]
