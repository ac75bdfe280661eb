-- ===== src/Capsules/Create.antt =====
-- pkg/service/sandbox.go: creating a capsule, as the call that places and records it and the
-- goroutine that boots it.
use wrenn.Prelude.{
  ℕ, ◌==◌, Bool, true, false, not, ◌&&◌, List, [], Option, none, some, ltb, if◌then◌else◌, ℤ, pos,
  negsuc, Text, text_eq, err, ok, codes, is_nil,
}
use wrenn.Ids.{Uuid}
use wrenn.Validate.{template_ref, metadata}
use wrenn.Volumes.{Ident}
use wrenn.Volumes.Service
use wrenn.Volumes.Reserve.{
  ReservedVolume, Reserving, reserve_volumes_for_create, release_volume_reservations,
  link_volume_reservations, mark_volumes_attached,
}
use wrenn.Capsules.{
  starting, error, Labels, Sandbox, World, Error, Stop, Result, fail, fails, panics,
  validation_failed, invalid_request, template_not_found, team_not_found, volume_host_mismatch,
  no_host, internal, of_volumes, update_sandbox_status_if, update_sandbox_running_if,
  update_sandbox_disk_size, insert_sandbox, publish, with_db, sandbox_failed, sandbox_started,
}
use wrenn.Capsules.Change.{publish_state_changed, persist_system_metadata}

abbrev pub min_timeout_sec : ℕ
min_timeout_sec = 60

unfoldable pub clamp_timeout : ℤ → ℕ
clamp_timeout (negsuc n) = 0
clamp_timeout (pos n) = if n == 0 then 0 else if ltb n min_timeout_sec then min_timeout_sec else n

pub record Template : Type 0 where
  pub id : Ident
  pub team_id : Ident
  pub is_snapshot : Bool
  pub vcpus : ℤ
  pub memory_mb : ℤ

pub data HostKind : Type 0 where
  byoc regular other_kind : HostKind

pub record Host : Type 0 where
  pub id : Ident
  pub online : Bool
  pub kind : HostKind
  pub team_id : Option Ident

-- The lookups that a create makes outside this component.
pub record Lookups : Type 0 where
  pub for_team : Ident → Text → Option Template
  pub team_by_slug : Text → Option Ident
  pub visible : Ident → Text → Ident → Option Template
  pub team_is_byoc : Ident → Option Bool
  pub host : Ident → Option Host
  pub select_host : Ident → Bool → ℤ → Option Host
  pub has_client : Host → Bool
  pub volumes_available : Bool

pub record CreateParams : Type 0 where
  pub team : Uuid
  pub template : Text
  pub vcpus : ℤ
  pub memory_mb : ℤ
  pub timeout_sec : ℤ
  pub labels : Labels
  pub volume_refs : List Text

abbrev pub or_default : ℤ → ℕ → ℤ
or_default (negsuc n) d = pos d
or_default (pos n) d = if n == 0 then pos d else pos n

-- resolveTemplateRef.
abbrev pub resolve_template_ref : Lookups → Ident → Text × Text → Option Template
resolve_template_ref look team (slug, name) =
    if is_nil slug
    then look.for_team team name
    else elim (look.team_by_slug slug) [ none ↦ none | some owner ↦ look.visible owner name team ]

abbrev pub is_own : Option Ident → Ident → Bool
is_own none team = false
is_own (some t) team = text_eq t team

-- Whether a host may run the capsules of a team.
abbrev pub is_eligible : Bool → Ident → Host → Bool
is_eligible true team host = elim host.kind [
  | byoc ↦ is_own host.team_id team
  | regular ↦ false
  | other_kind ↦ false
]
is_eligible false team host = elim host.kind [ byoc ↦ false | regular ↦ true | other_kind ↦ false ]

-- resolvePinnedHost.
abbrev pub resolve_pinned_host : Lookups → Ident → Bool → Ident → Result Host
resolve_pinned_host look host is_byoc team = elim (look.host host) [
  | none ↦ err (fails volume_host_mismatch)
  | some h ↦
      if h.online && is_eligible is_byoc team h then ok h else err (fails volume_host_mismatch)
]

abbrev pub place : Lookups → Option Ident → Bool → Ident → ℤ → Result Host
place look (some pinned) is_byoc team memory = resolve_pinned_host look pinned is_byoc team
place look none is_byoc team memory = elim (look.select_host team is_byoc memory) [
  | none ↦ err (fails no_host)
  | some h ↦ ok h
]

abbrev pub with_client : Lookups → Host → Result Host
with_client look h = if look.has_client h then ok h else err (fails internal)

-- The parameters after the defaults and the template are applied.
pub record Plan : Type 0 where
  pub id : Ident
  pub team : Ident
  pub template : Text
  pub template_id : Ident
  pub template_team_id : Ident
  pub vcpus : ℤ
  pub memory_mb : ℤ
  pub timeout_sec : ℕ
  pub labels : Labels
  pub volume_refs : List Text

abbrev pub template_name : Text → Text
template_name name = if is_nil name then codes "minimal-ubuntu" else name

abbrev pub planned : Ident → CreateParams → Template → Plan
unfolding clamp_timeout
planned id p t = record {
  id = id;
  team = p.team.bytes;
  template = template_name p.template;
  template_id = t.id;
  template_team_id = t.team_id;
  vcpus = if t.is_snapshot then t.vcpus else or_default p.vcpus 2;
  memory_mb = if t.is_snapshot then t.memory_mb else or_default p.memory_mb 2048;
  timeout_sec = clamp_timeout p.timeout_sec;
  labels = p.labels;
  volume_refs = p.volume_refs;
}

-- The checks up to the reservation of the volumes.
unfoldable pub plan : Lookups → Ident → CreateParams → Result (Plan × Bool)
plan look id p = elim (template_ref (template_name p.template)) [
  | err _ ↦ err (fails validation_failed)
  | ok ref ↦ elim (metadata p.labels) [
    | err _ ↦ err (fails validation_failed)
    | ok _ ↦
        if not p.team.valid
        then err (fails invalid_request)
        else elim (resolve_template_ref look p.team.bytes ref) [
          | none ↦ err (fails template_not_found)
          | some t ↦ elim (look.team_is_byoc p.team.bytes) [
            | none ↦ err (fails team_not_found)
            | some is_byoc ↦ ok (planned id p t, is_byoc)
          ]
        ]
  ]
]

abbrev pub new_sandbox : Plan → Host → ℕ → Sandbox
new_sandbox p h now = record {
  id = p.id;
  team_id = p.team;
  host_id = h.id;
  template = p.template;
  template_id = p.template_id;
  template_team_id = p.template_team_id;
  status = starting;
  vcpus = p.vcpus;
  memory_mb = p.memory_mb;
  timeout_sec = p.timeout_sec;
  disk_size_mb = 0;
  host_ip = [];
  metadata = p.labels;
  started_at = none;
  last_updated = now;
}

-- What the deferred cleanup does when the create is not committed.
abbrev pub abandon : {V : Type 0} → List ReservedVolume → Error → World → Result V × World
abandon reserved e w = fail e (with_db (release_volume_reservations reserved w.db) w)

-- What the goroutine that boots the capsule is started with.
pub record Boot : Type 0 where
  pub sandbox : Sandbox
  pub labels : Labels
  pub host_id : Ident
  pub reserved : List ReservedVolume

abbrev pub commit : Plan → Host → List ReservedVolume → Sandbox → World → Result Boot × World
commit p h reserved sb w =
    let linked = with_db (link_volume_reservations reserved p.id w.db) w in
    (
      ok (record { sandbox = sb; labels = p.labels; host_id = h.id; reserved = reserved }),
      publish_state_changed p.id [] (codes "starting") linked,
    )

abbrev pub insert : Plan → Host → List ReservedVolume → World → Result Boot × World
insert p h reserved w =
    let (answer, v) = insert_sandbox (new_sandbox p h) w in
    elim answer [ err _ ↦ abandon reserved internal v | ok sb ↦ commit p h reserved sb v ]

abbrev pub placed : Plan → List ReservedVolume → Result Host → World → Result Boot × World
placed p reserved (err (fails e)) w = abandon reserved e w
placed p reserved (err panics) w = (err panics, w)
placed p reserved (ok h) w = insert p h reserved w

abbrev pub of_volume_stop : Service.Stop → Stop
of_volume_stop (Service.fails e) = fails (of_volumes e)
of_volume_stop Service.panics = panics

abbrev pub find_host : Lookups → Option Ident → Bool → Plan → Result Host
find_host look pinned is_byoc p = elim (place look pinned is_byoc p.team p.memory_mb) [
  | err e ↦ err e
  | ok h ↦ with_client look h
]

abbrev pub reserved_for : Lookups → Plan → Bool → Reserving → World → Result Boot × World
reserved_for look p is_byoc (err e, d) w = (err (of_volume_stop e), with_db d w)
reserved_for look p is_byoc (ok (reserved, pinned), d) w =
    placed p reserved (find_host look pinned is_byoc p) (with_db d w)

-- `id` is the identifier that the call draws.
unfoldable pub create : Lookups → Ident → CreateParams → World → Result Boot × World
unfolding plan
create look id p w = elim (plan look id p) [
  | err e ↦ (err e, w)
  | ok (q, is_byoc) ↦
      reserved_for look q is_byoc
        (reserve_volumes_for_create look.volumes_available q.team q.volume_refs w.db) w
]

-- The answer of the host to the request to boot: its address, the size of the disk and the
-- system's labels; and when the context of the goroutine is done, for the retries that follow.
pub record Booted : Type 0 where
  pub ip : Text
  pub disk_size_mb : ℕ
  pub system : Labels
  pub expired : Ident → ℕ → Bool

-- A boot that the host does not answer is torn down; `gone` is whether the host confirms that.
unfoldable pub boot_failed : Boot → Bool → World → World
boot_failed b gone w =
    if gone
    then publish sandbox_failed b.sandbox.id []
        (update_sandbox_status_if b.sandbox.id starting error
          (with_db (release_volume_reservations b.reserved w.db) w)).1
    else w

unfoldable pub boot_done : Boot → Booted → World → World
boot_done b r w =
    let id = b.sandbox.id in
    let attached = with_db (mark_volumes_attached r.expired b.reserved b.host_id id w.db) w in
    let sized =
      if ltb 0 r.disk_size_mb
      then update_sandbox_disk_size id r.disk_size_mb attached
      else attached in
    let run = (update_sandbox_running_if id starting r.ip sized).1 in
    publish sandbox_started id r.system (persist_system_metadata id b.labels r.system run)

unfoldable pub create_in_background : Boot → Option Booted → Bool → World → World
unfolding boot_failed boot_done
create_in_background b none gone w = boot_failed b gone w
create_in_background b (some r) gone w = boot_done b r w
