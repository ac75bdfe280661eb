-- ===== src/Scheduler/Tests.antt =====
-- The schedulers on concrete inputs, with natural numbers in the place of the floats.
use wrenn.Prelude.{
  ℕ, ◌+◌, ◌-◌, ◌*◌, ◌/◌, ◌<◌, ◌≡◌, refl, true, false, ltb, List, [], ◌∷◌, none, some, get_elem?,
  err, ok, arith, codes,
}
use wrenn.Capsules.Create.{regular, byoc}
use wrenn.Scheduler.{Floats, HostLoad, ActiveHost, select_least_loaded, select_round_robin, panics}
use wrenn.Scheduler.Best.{IsOrdered, Chooses, select_least_loaded-Chooses}
use wrenn.Scheduler.Turns.{answers, round_robin_fair}

-- Numbers in thousandths, which stop at zero.
abbrev thousandths : Floats ℕ
thousandths = record {
  of_int = λ n. n * 1000;
  add = λ a b. a + b;
  sub = λ a b. a - b;
  mul = λ a b. a * b / 1000;
  div = λ a b. a * 1000 / b;
  less = ltb;
  three_halves = 1500;
  half = 500;
  two_thirds = 667;
}

thousandths-IsOrdered : IsOrdered thousandths
thousandths-IsOrdered = record {
  asymmetric = λ a b h. ground arith;
  not_less_trans = λ a b c h k. ground arith;
}

abbrev small : HostLoad
small = record {
  id = 1 ∷ [];
  kind = regular;
  team_id = none;
  memory_mb = 16384;
  cpu_cores = 16;
  disk_gb = 200;
  running_memory_mb = 4096;
  paused_memory_mb = 0;
  running_vcpus = 4;
  running_disk_mb = 10240;
  paused_disk_mb = 0;
}

abbrev large : HostLoad
large = record small { id = 2 ∷ []; memory_mb = 65536 }

abbrev loads : List HostLoad
loads = small ∷ large ∷ []

select_least_loaded-Chooses_example :
    Chooses thousandths 2048 0 thousandths-IsOrdered false
      (7 ∷ [])
      loads
      (select_least_loaded thousandths (some loads) false (7 ∷ []) 2048 0)
select_least_loaded-Chooses_example =
    select_least_loaded-Chooses thousandths 2048 0 thousandths-IsOrdered false (7 ∷ []) loads

abbrev host : ℕ → ActiveHost
host n = record {
  id = n ∷ [];
  online = true;
  address = codes "10.0.0.1:50051";
  kind = regular;
  team_id = none;
}

abbrev hosts : List ActiveHost
hosts = host 1 ∷ record (host 2) { kind = byoc } ∷ host 3 ∷ []

round_robin_fair_example :
    (i : ℕ) × (i < 2) × (get_elem? (answers 2 hosts false (7 ∷ []) 5) i ≡ some (ok (host 1)))
round_robin_fair_example = round_robin_fair hosts false (7 ∷ []) 5 0 (host 1) (omega arith) refl

-- Past the greatest int64 the index is negative.
past_int64 : (select_round_robin (some hosts) false (7 ∷ []) 9223372036854775809).0 ≡ err panics
unfolding select_round_robin
past_int64 = refl
