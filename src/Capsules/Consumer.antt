-- ===== src/Capsules/Consumer.antt =====
-- The consumer of the event stream (internal/api/sandbox_event_consumer.go), and how an event of the
-- service becomes one of the stream (internal/api/server.go). The row of the audit log that a handler
-- writes is left out, and of the hooks only whether each succeeds.
pub mod Failed
use wrenn.Prelude.{
  ◌≡◌, Bool, true, false, not, ◌&&◌, ◌||◌, List, [], ◌∷◌, Option, none, some, if◌then◌else◌, Text,
  text_eq, codes, Outcome, err, ok, all,
}
use wrenn.Ids
use wrenn.Ids.{format_sandbox_id, parse_sandbox_id, Uuid}
use wrenn.Volumes.{Ident, DbError, no_rows, unique_violation, failed}
use wrenn.Volumes.Statements.{detach_volumes_by_sandbox}
use wrenn.Capsules.{
  SandboxStatus, starting, running, pausing, paused, resuming, snapshotting, stopping, stopped,
  error, Sandbox, World, with_db, update_sandbox_status_if, update_sandbox_running_if, Labels,
  Event, EventKind, state_changed, sandbox_failed, sandbox_started, pause_failed, sandbox_paused,
  resume_failed, sandbox_resumed, snapshot_failed, sandbox_snapshotted, destroy_failed,
  sandbox_stopped,
}

-- The events of the taxonomy that matter to the consumer.
pub data Verb : Type 0 where
  capsule_create capsule_resume capsule_pause capsule_destroy capsule_state_changed : Verb
  snapshot_create : Verb

pub data Actor : Type 0 where
  user api_key system : Actor

pub record Message : Type 0 where
  pub verb : Verb
  pub success : Bool
  pub actor : Actor
  pub resource : Text
  pub metadata : Labels

abbrev uuid_of : Ident → Uuid
uuid_of id = record { bytes = id; valid = true }

abbrev message : Verb → Bool → Ident → Labels → Message
message verb success id metadata = record {
  verb = verb;
  success = success;
  actor = system;
  resource = format_sandbox_id (uuid_of id);
  metadata = metadata;
}

abbrev because : Text → Labels
because reason = (codes "reason", reason) ∷ []

abbrev with_ip : Text → Labels → Labels
with_ip [] metadata = metadata
with_ip (c ∷ cs) metadata = (codes "host_ip", c ∷ cs) ∷ metadata

abbrev name_of : Labels → Text
name_of [] = []
name_of ((k, v) ∷ m) = if text_eq k (codes "name") then v else name_of m

abbrev snapshot_message : Bool → Event → Labels → Message
snapshot_message success e metadata = record {
  verb = snapshot_create;
  success = success;
  actor = system;
  resource = name_of e.labels;
  metadata = metadata;
}

canonical : EventKind → Text → Event → Message
canonical sandbox_started ip e = message capsule_create true e.sandbox_id (with_ip ip [])
canonical sandbox_resumed ip e = message capsule_resume true e.sandbox_id (with_ip ip [])
canonical sandbox_paused ip e = message capsule_pause true e.sandbox_id (with_ip ip [])
canonical sandbox_stopped ip e = message capsule_destroy true e.sandbox_id (with_ip ip [])
canonical destroy_failed ip e =
    message capsule_destroy false e.sandbox_id (with_ip ip (because (codes "destroy_failed")))
canonical pause_failed ip e =
    message capsule_pause false e.sandbox_id (with_ip ip (because (codes "pause_failed")))
canonical resume_failed ip e =
    message capsule_resume false e.sandbox_id (with_ip ip (because (codes "resume_failed")))
canonical sandbox_failed ip e =
    message capsule_create false e.sandbox_id (with_ip ip (because (codes "create_failed")))
canonical sandbox_snapshotted ip e = snapshot_message true e []
canonical snapshot_failed ip e = snapshot_message false e (because (codes "snapshot_failed"))
canonical state_changed ip e = message capsule_state_changed false e.sandbox_id e.labels

-- `ip` is the address that the event of the service carries.
unfoldable pub service_event_to_canonical : Text → Event → Message
unfolding canonical
service_event_to_canonical ip e = canonical e.kind ip e

-- PublishEvent: an event of a change of state does not go to the stream that the consumer reads.
abbrev is_transient : Verb → Bool
is_transient capsule_state_changed = true
is_transient verb = false

unfoldable pub delivered : Text → Event → Option Message
unfolding service_event_to_canonical canonical
delivered ip e =
    let m = service_event_to_canonical ip e in if is_transient m.verb then none else some m

abbrev ip_of : Labels → Text
ip_of [] = []
ip_of ((k, v) ∷ m) = if text_eq k (codes "host_ip") then v else ip_of m

handle_started : Ident → Message → SandboxStatus → World → World
handle_started id m from w = (update_sandbox_running_if id from (ip_of m.metadata) w).1

-- The first of the statuses from which the change applies.
move_from : Ident → SandboxStatus → List SandboxStatus → World → World
move_from id to [] w = w
move_from id to (from ∷ froms) w =
    let (answer, w') = update_sandbox_status_if id from to w in
    let later = move_from id to froms w' in elim answer [ ok _ ↦ w' | err _ ↦ later ]

handle_auto_paused : Ident → World → World
unfolding move_from
handle_auto_paused id w = move_from id paused (running ∷ pausing ∷ []) w

unfoldable pub detach_volumes : Ident → World → World
detach_volumes id w = with_db (detach_volumes_by_sandbox id w.db).1 w

handle_stopped : Ident → World → World
unfolding move_from detach_volumes
handle_stopped id w = move_from id stopped (stopping ∷ running ∷ []) (detach_volumes id w)

abbrev failed_from : List SandboxStatus
failed_from = running ∷ starting ∷ pausing ∷ resuming ∷ snapshotting ∷ []

handle_failed : Ident → World → World
unfolding move_from detach_volumes
handle_failed id w = move_from id error failed_from (detach_volumes id w)

handle_verb : Verb → Ident → Message → World → World
unfolding handle_started handle_failed handle_auto_paused handle_stopped
handle_verb capsule_create id m w =
    if m.success then handle_started id m starting w else handle_failed id w
handle_verb capsule_resume id m w =
    if m.success then handle_started id m resuming w else handle_failed id w
handle_verb capsule_pause id m w = if m.success then handle_auto_paused id w else w
handle_verb capsule_destroy id m w = if m.success then handle_stopped id w else w
handle_verb capsule_state_changed id m w = w
handle_verb snapshot_create id m w = w

-- Events of the prefix capsule., but for changes of state.
abbrev concerns : Verb → Bool
concerns capsule_state_changed = false
concerns snapshot_create = false
concerns verb = true

abbrev is_system : Actor → Bool
is_system system = true
is_system a = false

-- The new world, and whether the message is acknowledged; none when the parser of the identifier
-- panics. A payload that is missing or does not parse is none; `hooks` says of each hook whether it
-- succeeds.
unfoldable pub handle_message : List Bool → Option Message → World → Option (World × Bool)
unfolding handle_verb handle_started handle_failed handle_auto_paused handle_stopped
handle_message hooks none w = some (w, true)
handle_message hooks (some m) w =
    if not (concerns m.verb) || not (is_system m.actor)
    then some (w, true)
    else elim (parse_sandbox_id m.resource) [
      | Ids.err e ↦ some (w, true)
      | Ids.panics ↦ none
      | Ids.ok id ↦ some (handle_verb m.verb id.bytes m w, not m.success || all (λ h. h) hooks)
    ]
