-- ===== src/Capsules/Consumer/Failed.antt =====
-- What becomes of the volumes of a capsule whose resume fails (internal/api/sandbox_event_consumer.go,
-- pkg/service/sandbox.go).
use wrenn.Prelude.{
  ◌≡◌, refl, ap, ◌∙◌, Bool, true, false, List, [], ◌∷◌, none, some, Text, text_eq_refl, err, All,
  arith,
}
use wrenn.Ids.{prefix_sandbox}
use wrenn.Ids.Bytes.{IsUuid}
use wrenn.Ids.Roundtrip.{parse_uuid-format_uuid}
use wrenn.Volumes.{Ident, Volume, detached, attached, is_status, no_rows}
use wrenn.Volumes.Statements.{detach_volumes_by_sandbox, free, is_held}
use wrenn.Volumes.Claimed.{IsFine}
use wrenn.Capsules.{
  SandboxStatus, paused, resuming, error, is_in, Sandbox, World, Event, resume_failed,
  update_sandbox_status_if, move,
}
use wrenn.Capsules.Change.{resume_in_background}
use wrenn.Capsules.Consumer.{
  delivered, handle_message, handle_verb, handle_failed, move_from, detach_volumes, failed_from,
  service_event_to_canonical,
}

-- A change of status that finds another status does nothing to the tables.
abbrev Misses : World → World → Type 0
Misses w w' =
    (w'.sandboxes ≡ w.sandboxes) × (w'.db.volumes ≡ w.db.volumes) × (w'.db.turn ≡ w.db.turn)

cas-Misses :
    (id : Ident) (from to : SandboxStatus) (sb : Sandbox) (w : World)
    → IsFine w.db
    → w.sandboxes id ≡ some sb
    → is_in sb.status from ≡ false
    → ((update_sandbox_status_if id from to w).0 ≡ err no_rows)
      × Misses w (update_sandbox_status_if id from to w).1
unfolding update_sandbox_status_if
cas-Misses id from to sb w fine_db at other = ground (arith, fine_db w.db.calls)

move-Misses :
    (id : Ident) (to : SandboxStatus) (froms : List SandboxStatus) (sb : Sandbox) (w : World)
    → IsFine w.db
    → w.sandboxes id ≡ some sb
    → All (λ from. is_in sb.status from ≡ false) froms
    → Misses w (move_from id to froms w)
unfolding move_from
move-Misses id to [] sb w fine_db at others = (refl, refl, refl)
move-Misses id to (from ∷ froms) sb w fine_db at others =
    let w' = (update_sandbox_status_if id from to w).1 in
    let (answer, (rows, volumes, turns)) = cas-Misses id from to sb w fine_db at others.0 in
    let later =
      move-Misses id to froms sb w' (λ n. ap (λ t. (t n).fault) turns ∙ fine_db n)
        (ap (λ f. f id) rows ∙ at) others.1 in
    rw (move_from, answer) (later.0 ∙ rows, later.1 ∙ volumes, later.2 ∙ turns)

-- One that finds its status makes the change, and touches no volume.
cas_hits :
    (id : Ident) (from to : SandboxStatus) (sb : Sandbox) (w : World)
    → IsFine w.db
    → w.sandboxes id ≡ some sb
    → is_in sb.status from ≡ true
    → let w' = (update_sandbox_status_if id from to w).1 in
      (w'.sandboxes id ≡ some (move to (w.db.turn w.db.calls).now sb))
      × (w'.db.volumes ≡ w.db.volumes)
      × (w'.db.turn ≡ w.db.turn)
unfolding update_sandbox_status_if
cas_hits id from to sb w fine_db at same = ground (arith, fine_db w.db.calls, text_eq_refl id)

detach_frees :
    (id k : Ident) (v : Volume) (w : World)
    → IsFine w.db
    → w.db.volumes.row k ≡ some v
    → v.sandbox_id ≡ some id
    → is_held v.status ≡ true
    → let w' = detach_volumes id w in
      (w'.sandboxes ≡ w.sandboxes)
      × (w'.db.volumes.row k ≡ some (free (w.db.turn w.db.calls).now v))
      × (w'.db.turn ≡ w.db.turn)
unfolding detach_volumes detach_volumes_by_sandbox
detach_frees id k v w fine_db at of_it held = ground (arith, fine_db w.db.calls, text_eq_refl id)

-- A paused capsule stays paused when its failure is handled, and its volumes are freed.
failed_frees :
    (id k : Ident) (sb : Sandbox) (v : Volume) (w : World)
    → IsFine w.db
    → w.sandboxes id ≡ some sb
    → sb.status ≡ paused
    → w.db.volumes.row k ≡ some v
    → v.sandbox_id ≡ some id
    → is_held v.status ≡ true
    → let w' = handle_failed id w in
      (w'.sandboxes id ≡ some sb) × (w'.db.volumes.row k ≡ some (free (w.db.turn w.db.calls).now v))
unfolding handle_failed
failed_frees id k sb v w fine_db at is_paused vol of_it held =
    let u = detach_volumes id w in
    let (rows, freed, turns) = detach_frees id k v w fine_db vol of_it held in
    let not_it : All (λ from. is_in sb.status from ≡ false) failed_from =
      rw is_paused (refl, (refl, (refl, (refl, (refl, tt))))) in
    let (rows', volumes', turns') =
      move-Misses id error failed_from sb u (λ n. ap (λ t. (t n).fault) turns ∙ fine_db n)
        (ap (λ f. f id) rows ∙ at) not_it in
    (ap (λ f. f id) (rows' ∙ rows) ∙ at, ap (λ t. t.row k) volumes' ∙ freed)

-- The event of a resume that failed.
abbrev pub failure : Ident → Event
failure id = record { kind = resume_failed; sandbox_id = id; labels = [] }

failure_handled :
    (hooks : List Bool) (ip : Text) (id : Ident) (w : World)
    → IsUuid id
    → handle_message hooks (delivered ip (failure id)) w ≡ some (handle_failed id w, true)
unfolding handle_message handle_verb delivered service_event_to_canonical
failure_handled hooks ip id w valid = rw (parse_uuid-format_uuid prefix_sandbox id valid) (refl)

cas_events :
    (id : Ident) (from to : SandboxStatus) (w : World)
    → (update_sandbox_status_if id from to w).1.events ≡ w.events
unfolding update_sandbox_status_if
cas_events id from to w = ground arith

-- When every call of the database is answered: after the background resume of a capsule failed and
-- the consumer has handled the event of it, the message is acknowledged, the capsule is paused, and
-- so may be resumed again, but each volume that was attached to it is detached and belongs to no
-- capsule, so that another create may claim it.
pub resume_failure_frees :
    (id k : Ident) (sb : Sandbox) (v : Volume) (hooks : List Bool) (ip : Text) (w : World)
    → IsUuid id
    → IsFine w.db
    → w.sandboxes id ≡ some sb
    → is_in sb.status resuming ≡ true
    → w.db.volumes.row k ≡ some v
    → v.sandbox_id ≡ some id
    → is_status v.status attached ≡ true
    → (after : World) × (sb' : Sandbox) × (v' : Volume) × ((resume_in_background id none w).events
        ≡ failure id ∷ w.events)
      × (handle_message hooks (delivered ip (failure id)) (resume_in_background id none w)
          ≡ some (after, true))
      × (after.sandboxes id ≡ some sb')
      × (sb'.status ≡ paused)
      × (after.db.volumes.row k ≡ some v')
      × (v'.status ≡ detached)
      × (v'.sandbox_id ≡ none)
unfolding resume_in_background
resume_failure_frees id k sb v hooks ip w valid fine_db at resumes vol of_it held =
    let u = resume_in_background id none w in
    let now = (w.db.turn w.db.calls).now in
    let (row, volumes, turns) = cas_hits id resuming paused sb w fine_db at resumes in
    let (row', freed) =
      failed_frees id k (move paused now sb) v u (λ n. ap (λ t. (t n).fault) turns ∙ fine_db n) row
        refl (ap (λ t. t.row k) volumes ∙ vol) of_it (ground arith) in
    (
      handle_failed id u,
      move paused now sb,
      free (u.db.turn u.db.calls).now v,
      ap (λ es. failure id ∷ es) (cas_events id resuming paused w),
      failure_handled hooks ip id u valid,
      row',
      refl,
      freed,
      refl,
      refl,
    )
