-- ===== src/Capsules/Tests.antt =====
-- Capsules on concrete inputs.
use wrenn.Prelude.{
  ℕ, ◌<◌, ◌≡◌, ◌⊎◌, refl, true, false, [], ◌∷◌, none, some, if◌then◌else◌, text_eq, codes, ok, zero,
  suc, arith, inl, inr, Bool-cases, trim_space, is_space, count, pos,
}
use wrenn.Regexp.{matches}
use wrenn.Validate.{volume_name, normal_volume_name, template_ref, split_ref, safe_name, metadata}
use wrenn.Ids.{default_volume_mount_path, zeros}
use wrenn.Volumes.{Ident, Volume, Db, fine, detached, attached}
use wrenn.Volumes.Statements.{
  detach_volumes_by_sandbox_ids, free, reserve_volume_for_attach, get_volume_by_team_and_name,
}
use wrenn.Volumes.Service.{resolve, get}
use wrenn.Volumes.Reserve.{reserve_volumes_for_create, release_volume_reservations}
use wrenn.Volumes.Untouched.{row_of}
use wrenn.Volumes.Claimed.{IsTidy, untimed}
use wrenn.Capsules.{
  update_sandbox_status, get_sandbox, SandboxStatus, running, pausing, stopping, stopped, resuming,
  paused, Sandbox, World, no_host, move,
}
use wrenn.Capsules.Change.{
  Attempts, broken, not_there, destroy_in_background, pause, resume, resume_in_background,
  create_snapshot, destroy_found,
}
use wrenn.Capsules.Create.{Lookups, CreateParams, Template, create, plan, clamp_timeout}
use wrenn.Capsules.Edges.{only, on, Follows}
use wrenn.Capsules.Consumer.{delivered, handle_message}
use wrenn.Capsules.Monitor
use wrenn.Capsules.Bulk.{bulk_update_status_by_ids, list_sandboxes_by_host_and_status}
use wrenn.Capsules.Monitor.{Report, check_host}
use wrenn.Capsules.Monitor.Settled.{Settles}
use wrenn.Capsules.Monitor.Checked.{check_host-Settles}
use wrenn.Capsules.Consumer.Failed.{failure, resume_failure_frees}
use wrenn.Capsules.Steps.{here, next, pauses, destroys, lifecycle, Ended, over_stays}
use wrenn.Capsules.Frees.{is_gone, destroy_in_background_frees, create_restores}
use wrenn.Capsules.Exclusive.{Refuses, in_transition_refused}

abbrev team : Ident
team = zeros 16

abbrev cache_id : Ident
cache_id = 7 ∷ zeros 15

abbrev cache : Volume
cache = record {
  id = cache_id;
  team_id = team;
  host_id = none;
  name = codes "vl-cache";
  size_mb = 200;
  status = detached;
  sandbox_id = none;
  mount_path = [];
  last_attached_at = none;
  last_updated = 0;
}

abbrev store : Db
store = record {
  volumes = record {
    ids = cache_id ∷ [];
    row = λ k. if text_eq k cache_id then some cache else none;
  };
  calls = 0;
  turn = λ n. record { now = n; fault = fine };
}

abbrev box_id : Ident
box_id = 1 ∷ []

abbrev box : SandboxStatus → Sandbox
box s = record {
  id = box_id;
  team_id = team;
  host_id = 2 ∷ [];
  template = codes "minimal-ubuntu";
  template_id = zeros 16;
  template_team_id = team;
  status = s;
  vcpus = pos 2;
  memory_mb = pos 2048;
  timeout_sec = 0;
  disk_size_mb = 0;
  host_ip = [];
  metadata = [];
  started_at = none;
  last_updated = 0;
}

abbrev world : SandboxStatus → World
world s = record {
  db = store;
  sandboxes = λ k. if text_eq k box_id then some (box s) else none;
  events = [];
}

clamped : clamp_timeout (pos 5) ≡ 60
unfolding clamp_timeout
clamped = refl

abbrev after_pause : World
after_pause = (pause box_id team (ok tt) (world running)).1

lifecycle_example :
    Follows
      (on box_id (only running pausing) box_id)
      ((world running).sandboxes box_id)
      (after_pause.sandboxes box_id)
lifecycle_example =
    lifecycle {w = world running} {v = after_pause} (pauses box_id team (ok tt)) box_id

-- A destroy that read `running` before another one had stopped the capsule.
abbrev after_destroy : World
after_destroy = (destroy_found box_id (ok tt) (box running) (world stopped)).1

late_destroy : after_destroy.sandboxes box_id ≡ some (move stopping 1 (box stopped))
unfolding update_sandbox_status get_sandbox
late_destroy = refl

over_stays_example : Ended stopped (after_destroy.sandboxes box_id)
over_stays_example =
    over_stays {w = world stopped} {v = after_destroy} box_id (box stopped)
      (next here (destroys box_id (box running) (ok tt))) refl refl

abbrev second_try : Attempts
second_try = record {
  expired = λ n. false;
  reply = λ n. elim n [ zero ↦ broken | suc m ↦ not_there ];
}

destroy_in_background_frees_example :
    (((destroy_in_background box_id second_try (world running)).db ≡ store)
      × ((destroy_in_background box_id second_try (world running)).sandboxes
          ≡ (world running).sandboxes))
    ⊎ ((i : ℕ) × (i < 3) × (is_gone (second_try.reply i) ≡ true))
destroy_in_background_frees_example = destroy_in_background_frees box_id second_try (world running)

in_transition_refused_example :
    Refuses (world pausing) (pause box_id team (ok tt) (world pausing))
    × Refuses (world pausing) (resume box_id team (ok tt) (world pausing))
    × Refuses
        (world pausing)
        (create_snapshot box_id team [] (codes "template-1") (λ n. false) (ok tt) (world pausing))
in_transition_refused_example =
    in_transition_refused box_id team (ok tt) [] (codes "template-1") (λ n. false) (world pausing)
      (box pausing) refl refl

abbrev ubuntu : Template
ubuntu = record {
  id = zeros 16;
  team_id = team;
  is_snapshot = false;
  vcpus = pos 0;
  memory_mb = pos 0;
}

-- A deployment without a host to place a capsule on.
abbrev no_hosts : Lookups
no_hosts = record {
  for_team = λ t n. some ubuntu;
  team_by_slug = λ s. none;
  visible = λ o n t. none;
  team_is_byoc = λ t. some false;
  host = λ h. none;
  select_host = λ t b m. none;
  has_client = λ h. true;
  volumes_available = true;
}

abbrev params : CreateParams
params = record {
  team = record { bytes = team; valid = true };
  template = [];
  vcpus = pos 0;
  memory_mb = pos 0;
  timeout_sec = pos 5;
  labels = [];
  volume_refs = codes "vl-cache" ∷ [];
}

store-IsTidy : (k : Ident) → IsTidy (row_of store k)
store-IsTidy k = elim (Bool-cases (text_eq k cache_id)) [
  | inl e ↦ rw e (λ was. refl)
  | inr e ↦ rw e tt
]

create_restores_example :
    untimed (row_of (create no_hosts (5 ∷ []) params (world running)).1.db cache_id)
    ≡ untimed (row_of store cache_id)
unfolding create plan clamp_timeout template_ref split_ref safe_name metadata count
    reserve_volumes_for_create release_volume_reservations resolve get reserve_volume_for_attach
    get_volume_by_team_and_name volume_name normal_volume_name trim_space is_space matches
    default_volume_mount_path
create_restores_example =
    create_restores no_hosts (5 ∷ []) cache_id params (world running) no_host (λ n. refl)
      store-IsTidy refl

-- A capsule that resumes, with a volume.
abbrev held_id : Ident
held_id = zeros 16

abbrev held : Volume
held = record cache { status = attached; sandbox_id = some held_id }

abbrev resuming_world : World
resuming_world = record {
  db = record store {
    volumes = record {
      ids = cache_id ∷ [];
      row = λ k. if text_eq k cache_id then some held else none;
    };
  };
  sandboxes = λ k. if text_eq k held_id then some (box resuming) else none;
  events = [];
}

resume_failure_frees_example :
    (after : World) × (sb' : Sandbox) × (v' : Volume) × ((resume_in_background held_id none
        resuming_world).events
      ≡ failure held_id ∷ [])
    × (handle_message []
          (delivered [] (failure held_id))
          (resume_in_background held_id none resuming_world)
        ≡ some (after, true))
    × (after.sandboxes held_id ≡ some sb')
    × (sb'.status ≡ paused)
    × (after.db.volumes.row cache_id ≡ some v')
    × (v'.status ≡ detached)
    × (v'.sandbox_id ≡ none)
resume_failure_frees_example =
    resume_failure_frees held_id cache_id (box resuming) held [] [] resuming_world (omega arith)
      (λ n. refl) refl refl refl refl refl

-- A check of the host of a running capsule that holds a volume and that the host does not have.
abbrev running_world : World
running_world = record resuming_world {
  sandboxes = λ k. if text_eq k held_id then some (box running) else none;
}

abbrev nothing_alive : Report
nothing_alive = record { reported = []; gone = λ k. true; now = 0; order = running ∷ paused ∷ [] }

abbrev checked : World
checked = check_host (held_id ∷ []) (2 ∷ []) false Monitor.online (some nothing_alive) running_world

check_host-Settles_example : Settles running_world checked
check_host-Settles_example =
    check_host-Settles (held_id ∷ []) (2 ∷ []) false Monitor.online (some nothing_alive)
      running_world refl

stopped_and_freed :
    (checked.sandboxes held_id ≡ some (move stopped 2 (box running)))
    × (row_of checked.db cache_id ≡ some (free 3 held))
unfolding check_host bulk_update_status_by_ids list_sandboxes_by_host_and_status
    detach_volumes_by_sandbox_ids
stopped_and_freed = (refl, refl)
