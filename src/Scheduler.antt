-- ===== src/Scheduler.antt =====
-- pkg/scheduler: the host that a new capsule is placed on.
pub mod Best
pub mod Turns
mod Tests
use wrenn.Prelude.{
  ℕ, ◌+◌, ◌-◌, ◌*◌, ◌%◌, ◌≡◌, Bool, true, false, not, ◌&&◌, ◌||◌, List, [], ◌∷◌, Option, none, some,
  ltb, ◌==◌, if◌then◌else◌, length, get_elem?, text_eq, Text, is_nil, Outcome, err, ok,
}
use wrenn.Volumes.{Ident}
use wrenn.Capsules.Create.{HostKind, byoc, regular, other_kind, is_own}

-- The operations of Go's float64 that the score uses, and its constants.
pub record Floats {ℓ} (F : Type ℓ) : Type ℓ where
  pub of_int : ℕ → F
  pub add : F → F → F
  pub sub : F → F → F
  pub mul : F → F → F
  pub div : F → F → F
  pub less : F → F → Bool
  pub three_halves : F
  pub half : F
  pub two_thirds : F

-- A row of GetHostsWithLoad, which holds hosts that are online.
pub record HostLoad : Type 0 where
  pub id : Ident
  pub kind : HostKind
  pub team_id : Option Ident
  pub memory_mb : ℕ
  pub cpu_cores : ℕ
  pub disk_gb : ℕ
  pub running_memory_mb : ℕ
  pub paused_memory_mb : ℕ
  pub running_vcpus : ℕ
  pub running_disk_mb : ℕ
  pub paused_disk_mb : ℕ

abbrev pub is_byoc_kind : HostKind → Bool
is_byoc_kind byoc = true
is_byoc_kind regular = false
is_byoc_kind other_kind = false

abbrev pub is_regular_kind : HostKind → Bool
is_regular_kind byoc = false
is_regular_kind regular = true
is_regular_kind other_kind = false

abbrev pub may_use : Bool → Ident → HostKind → Option Ident → Bool
may_use is_byoc team kind owner =
    if is_byoc then is_byoc_kind kind && is_own owner team else is_regular_kind kind

pub data CapacityError : Type 0 where
  list_failed no_team_host no_platform_host no_room panics : CapacityError

abbrev pub none_online : Bool → CapacityError
none_online is_byoc = if is_byoc then no_team_host else no_platform_host

module _ {ℓ} {F : Type ℓ} (fl : Floats F) where
  pub record HostResources : Type ℓ where
    pub ram_total : F
    pub ram_usable : F
    pub cpu_total : F
    pub cpu_usable : F
    pub disk_total : F
    pub disk_usable : F

  unfoldable pub compute_resources : HostLoad → HostResources
  compute_resources row =
      let ram_total = fl.sub (fl.of_int row.memory_mb) (fl.of_int 8192) in
      let cpu_total = fl.sub (fl.mul (fl.of_int row.cpu_cores) fl.three_halves) (fl.of_int 4) in
      let disk_total = fl.sub (fl.mul (fl.of_int row.disk_gb) (fl.of_int 1024)) (fl.of_int 30720) in
      let used_memory =
        fl.add (fl.of_int row.running_memory_mb)
          (fl.mul fl.half (fl.of_int row.paused_memory_mb)) in
      let used_disk =
        fl.add (fl.of_int row.running_disk_mb)
          (fl.mul fl.two_thirds (fl.of_int row.paused_disk_mb)) in
      record {
        ram_total = ram_total;
        ram_usable = fl.sub ram_total used_memory;
        cpu_total = cpu_total;
        cpu_usable = fl.sub cpu_total (fl.of_int row.running_vcpus);
        disk_total = disk_total;
        disk_usable = fl.sub disk_total used_disk;
      }

  abbrev pub safe_frac : F → F → F
  safe_frac usable total = if fl.less (fl.of_int 0) total then fl.div usable total else fl.of_int 0

  abbrev pub smaller : F → F → F
  smaller a b = if fl.less b a then b else a

  unfoldable pub bottleneck_score : HostResources → F
  bottleneck_score r =
      smaller (smaller (safe_frac r.ram_usable r.ram_total) (safe_frac r.cpu_usable r.cpu_total))
        (safe_frac r.disk_usable r.disk_total)

  unfoldable pub score : HostLoad → F
  unfolding compute_resources bottleneck_score
  score row = bottleneck_score (compute_resources row)

  -- Admission control; zero asks for no check.
  unfoldable pub fits : ℕ → ℕ → HostLoad → Bool
  unfolding compute_resources
  fits memory disk row =
      let r = compute_resources row in
      not (ltb 0 memory && fl.less r.ram_usable (fl.of_int memory))
      && not (ltb 0 disk && fl.less r.disk_usable (fl.of_int disk))

  abbrev pub eligible : Bool → Ident → List HostLoad → List HostLoad
  eligible is_byoc team [] = []
  eligible is_byoc team (row ∷ rows) =
      let rest = eligible is_byoc team rows in
      if may_use is_byoc team row.kind row.team_id then row ∷ rest else rest

  -- The loop over the candidates, with the best so far.
  unfoldable pub best_of : ℕ → ℕ → Option HostLoad → List HostLoad → Option HostLoad
  unfolding score fits
  best_of memory disk best [] = best
  best_of memory disk none (row ∷ rows) =
      let taken = best_of memory disk (some row) rows in
      let passed = best_of memory disk none rows in if fits memory disk row then taken else passed
  best_of memory disk (some b) (row ∷ rows) =
      let taken = best_of memory disk (some row) rows in
      let passed = best_of memory disk (some b) rows in
      if fits memory disk row && fl.less (score b) (score row) then taken else passed

  abbrev pub chosen : Option HostLoad → Outcome CapacityError HostLoad
  chosen none = err no_room
  chosen (some row) = ok row

  -- LeastLoadedScheduler.SelectHost; `rows` is none when the query fails.
  unfoldable pub select_least_loaded :
      Option (List HostLoad) → Bool → Ident → ℕ → ℕ → Outcome CapacityError HostLoad
  unfolding best_of
  select_least_loaded none is_byoc team memory disk = err list_failed
  select_least_loaded (some rows) is_byoc team memory disk =
      let candidates = eligible is_byoc team rows in
      if length candidates == 0
      then err (none_online is_byoc)
      else chosen (best_of memory disk none candidates)

-- A row of ListActiveHosts.
pub record ActiveHost : Type 0 where
  pub id : Ident
  pub online : Bool
  pub address : Text
  pub kind : HostKind
  pub team_id : Option Ident

abbrev pub is_candidate : Bool → Ident → ActiveHost → Bool
is_candidate is_byoc team h =
    h.online && not (is_nil h.address) && may_use is_byoc team h.kind h.team_id

abbrev pub candidates_of : Bool → Ident → List ActiveHost → List ActiveHost
candidates_of is_byoc team [] = []
candidates_of is_byoc team (h ∷ hosts) =
    let rest = candidates_of is_byoc team hosts in
    if is_candidate is_byoc team h then h ∷ rest else rest

-- The counter is an int64, by its bits: from int64_half on they are those of the negative numbers.
abbrev pub int64_half : ℕ
int64_half = 9223372036854775808

abbrev pub int64_range : ℕ
int64_range = 18446744073709551616

-- The remainder of a negative number is negative or zero.
abbrev pub index_of : ℕ → ℕ → Option ℕ
index_of turn n =
    if ltb turn int64_half
    then some (turn % n)
    else if (int64_range - turn) % n == 0
    then some 0
    else none

abbrev pub next_turn : ℕ → ℕ
next_turn turn = (turn + 1) % int64_range

-- An index out of range panics.
abbrev pub at_index : List ActiveHost → Option ℕ → Outcome CapacityError ActiveHost
at_index hosts none = err panics
at_index hosts (some i) = elim (get_elem? hosts i) [ none ↦ err panics | some h ↦ ok h ]

abbrev pub at_turn : ℕ → List ActiveHost → Outcome CapacityError ActiveHost × ℕ
at_turn turn hosts = (at_index hosts (index_of turn (length hosts)), next_turn turn)

-- RoundRobinScheduler.SelectHost, with the counter before and after.
unfoldable pub select_round_robin :
    Option (List ActiveHost) → Bool → Ident → ℕ → Outcome CapacityError ActiveHost × ℕ
select_round_robin none is_byoc team turn = (err list_failed, turn)
select_round_robin (some hosts) is_byoc team turn =
    let found = candidates_of is_byoc team hosts in
    if length found == 0 then (err (none_online is_byoc), turn) else at_turn turn found
