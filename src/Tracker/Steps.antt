-- ===== src/Tracker/Steps.antt =====
-- Goroutines over one connection tracker (pkg/sandbox/conntracker.go): any number of handlers that
-- acquire and release, and of callers of Drain, ForceClose and Reset, in any order.
use wrenn.Prelude.{
  ℕ, zero, suc, ◌+◌, ◌≡◌, true, false, List, [], ◌∷◌, Option, some, get_elem?, if◌then◌else◌,
}
use wrenn.Tracker.{
  Tracker, first_look, second_look, enter, release, wait_drain, begin_drain, arm_drain, context,
  cancel_context, reset_drain, reset_context, reset_open,
}

pub data Handler : Type 0 where
  idle passed cleared holding : Handler

-- A caller of Drain holds the number of resets that it found, the channel that ends its wait, and the
-- one that it waits for.
pub data Drainer : Type 0 where
  resting : Drainer
  asked : ℕ → Drainer
  armed : ℕ → ℕ → Drainer
  waiting : ℕ → ℕ → Option ℕ → Drainer
  drained : ℕ → Drainer

pub record System : Type 0 where
  pub tracker : Tracker
  pub handlers : List Handler
  pub drainers : List Drainer
  pub resets : ℕ

abbrev pub set {ℓ} : {A : Type ℓ} → List A → ℕ → A → List A
set [] i v = []
set (x ∷ xs) zero v = v ∷ xs
set (x ∷ xs) (suc i) v = x ∷ set xs i v

abbrev pub with_handler : Tracker → ℕ → Handler → System → System
with_handler t i h s = record s { tracker = t; handlers = set s.handlers i h }

abbrev pub with_drainer : Tracker → ℕ → Drainer → System → System
with_drainer t p d s = record s { tracker = t; drainers = set s.drainers p d }

abbrev pub with_tracker : Tracker → System → System
with_tracker t s = record s { tracker = t }

-- A section under mu runs only when no handler has the lock.
pub data Step : System → System → Type 0 where
  look :
      (s : System) (i : ℕ)
      → get_elem? s.handlers i ≡ some idle
      → Step s (with_handler s.tracker i (if first_look s.tracker then passed else idle) s)
  look_again :
      (s : System) (i : ℕ)
      → get_elem? s.handlers i ≡ some passed
      → s.tracker.locked ≡ false
      → Step s (
          with_handler
            (second_look s.tracker).0
            i
            (if (second_look s.tracker).1 then cleared else idle)
            s)
  acquire :
      (s : System) (i : ℕ)
      → get_elem? s.handlers i ≡ some cleared
      → Step s (with_handler (enter s.tracker) i holding s)
  finish :
      (s : System) (i : ℕ)
      → get_elem? s.handlers i ≡ some holding
      → s.tracker.locked ≡ false
      → Step s (with_handler (release s.tracker) i idle s)
  ask :
      (s : System) (p : ℕ)
      → get_elem? s.drainers p ≡ some resting
      → Step s (with_drainer (begin_drain s.tracker) p (asked s.resets) s)
  arm :
      (s : System) (p g : ℕ)
      → get_elem? s.drainers p ≡ some (asked g)
      → Step s (with_drainer (arm_drain s.tracker).0 p (armed g (arm_drain s.tracker).1) s)
  wait :
      (s : System) (p g c : ℕ)
      → get_elem? s.drainers p ≡ some (armed g c)
      → s.tracker.locked ≡ false
      → Step s (with_drainer (wait_drain s.tracker).0 p (waiting g c (wait_drain s.tracker).1) s)
  wake :
      (s : System) (p g c ch : ℕ)
      → get_elem? s.drainers p ≡ some (waiting g c (some ch))
      → s.tracker.zero_closed ch ≡ true
      → Step s (with_drainer s.tracker p (drained g) s)
  interrupted :
      (s : System) (p g c : ℕ) (ch : Option ℕ)
      → get_elem? s.drainers p ≡ some (waiting g c ch)
      → s.tracker.cancel_closed c ≡ true
      → Step s (with_drainer s.tracker p resting s)
  timed_out :
      (s : System) (p g c : ℕ) (ch : Option ℕ)
      → get_elem? s.drainers p ≡ some (waiting g c ch)
      → Step s (with_drainer s.tracker p resting s)
  again :
      (s : System) (p g : ℕ)
      → get_elem? s.drainers p ≡ some (drained g)
      → Step s (with_drainer s.tracker p resting s)
  use_context : (s : System) → Step s (with_tracker (context s.tracker).0 s)
  force : (s : System) → Step s (with_tracker (cancel_context s.tracker) s)
  force_wait :
      (s : System) → s.tracker.locked ≡ false → Step s (with_tracker (wait_drain s.tracker).0 s)
  end_drain : (s : System) → Step s (with_tracker (reset_drain s.tracker) s)
  renew_context : (s : System) → Step s (with_tracker (reset_context s.tracker) s)
  reopen :
      (s : System) → Step s (record s { tracker = reset_open s.tracker; resets = s.resets + 1 })

pub data Reach (s : System) : System → Type 0 where
  here : Reach s s
  next : {t u : System} → Reach s t → Step t u → Reach s u
