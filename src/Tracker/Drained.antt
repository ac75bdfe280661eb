-- ===== src/Tracker/Drained.antt =====
-- What a drain that found nothing in flight may rely on (pkg/sandbox/conntracker.go).
use wrenn.Prelude.{
  ℕ, zero, suc, ◌<◌, ◌≡◌, ◌⊎◌, inl, refl, sym, ap, false, List, [], ◌∷◌, pos, All, arith,
}
use wrenn.Tracker.{
  Tracker, fresh_tracker, first_look, wait_drain, context, cancel_context, reset_drain,
  reset_context,
}
use wrenn.Tracker.Steps.{
  Handler, idle, Drainer, resting, asked, armed, waiting, drained, System, Step, look, look_again,
  acquire, finish, ask, arm, wait, wake, interrupted, timed_out, again, use_context, force,
  force_wait, end_drain, renew_context, reopen, Reach, here, next,
}
use wrenn.Tracker.Consistent.{Same-step, wait-Keeps, wait_fields, tracker-IsConsistent}
use wrenn.Tracker.Invariant.{
  IsConsistent, clears, holds, total, DrainerOk, parts, wait-Channels, All-each,
}
use wrenn.Tracker.Cases.{
  look_case, again_case, acquire_case, finish_case, ask_case, context-Same, cancel-Same,
  reset_drain-Same, reset_context-Same, context-Calm, cancel-Calm, reset_drain-Calm,
  reset_context-Calm, arm_case, wait_case, wake_case, rest_case, reopen_case,
}

Step-IsConsistent : {s u : System} → Step s u → IsConsistent s → IsConsistent u
Step-IsConsistent (look s i at) v = look_case s i at v (first_look s.tracker)
Step-IsConsistent (look_again s i at l) v = again_case s i at l v
Step-IsConsistent (acquire s i at) v = acquire_case s i at v
Step-IsConsistent (finish s i at l) v = finish_case s i at v
Step-IsConsistent (ask s p at) v = ask_case s p v
Step-IsConsistent (arm s p g at) v = arm_case s p g at v
Step-IsConsistent (wait s p g c at l) v = wait_case s p g c at l v
Step-IsConsistent (wake s p g c ch at e) v = wake_case s p g c ch at e v
Step-IsConsistent (interrupted s p g c ch at e) v = rest_case s p v
Step-IsConsistent (timed_out s p g c ch at) v = rest_case s p v
Step-IsConsistent (again s p g at) v = rest_case s p v
Step-IsConsistent (use_context s) v =
    Same-step s (context s.tracker).0 (context-Same s.tracker) (context-Calm s.tracker v.calm) v
Step-IsConsistent (force s) v =
    Same-step s (cancel_context s.tracker) (cancel-Same s.tracker) (cancel-Calm s.tracker v.calm) v
Step-IsConsistent (force_wait s l) v =
    let (kept, n) = wait_fields s.tracker in
    tracker-IsConsistent s (wait_drain s.tracker).0 v kept n (wait-Channels s.tracker (parts v))
      (wait-Keeps s.tracker s.resets)
Step-IsConsistent (end_drain s) v =
    Same-step s (reset_drain s.tracker) (reset_drain-Same s.tracker)
      (reset_drain-Calm s.tracker v.calm) v
Step-IsConsistent (renew_context s) v =
    Same-step s (reset_context s.tracker) (reset_context-Same s.tracker)
      (reset_context-Calm s.tracker v.calm) v
Step-IsConsistent (reopen s) v = reopen_case s v

Reach-IsConsistent : {s u : System} → IsConsistent s → Reach s u → IsConsistent u
Reach-IsConsistent v here = v
Reach-IsConsistent v (next r st) = Step-IsConsistent st (Reach-IsConsistent v r)

-- A new tracker, so many handlers, and so many callers of Drain.
abbrev copies {ℓ} : {A : Type ℓ} → ℕ → A → List A
copies zero x = []
copies (suc n) x = x ∷ copies n x

abbrev pub start : ℕ → ℕ → System
start n m = record {
  tracker = fresh_tracker;
  handlers = copies n idle;
  drainers = copies m resting;
  resets = 0;
}

idle_total : (w : Handler → ℕ) (n : ℕ) → w idle ≡ 0 → total w (copies n idle) ≡ 0
idle_total w zero e = refl
idle_total w (suc n) e = omega (arith, idle_total w n e)

resting_ok : (t : Tracker) (k n : ℕ) → All (DrainerOk t k) (copies n resting)
resting_ok t k zero = tt
resting_ok t k (suc n) = (tt, resting_ok t k n)

start-IsConsistent : (n m : ℕ) → IsConsistent (start n m)
start-IsConsistent n m = record {
  locks = idle_total clears n refl;
  counts = ap pos (sym (idle_total holds n refl));
  channel = inl (refl, refl);
  unmade = λ c le. refl;
  calm = (refl, λ c le. refl, inl refl);
  drainers = resting_ok fresh_tracker 0 m;
}

-- What a Drain that returned because nothing was in flight may rely on: a Reset reopened the
-- tracker since it began, or no handler holds a connection or is about to, and an Acquire is refused.
abbrev pub Relies : System → Drainer → Type 0
Relies s resting = Unit {0}
Relies s (asked g) = Unit {0}
Relies s (armed g c) = Unit {0}
Relies s (waiting g c ch) = Unit {0}
Relies s (drained g) =
    (g < s.resets)
    ⊎ ((total holds s.handlers ≡ 0)
        × (total clears s.handlers ≡ 0)
        × (first_look s.tracker ≡ false))

drainer-Relies :
    (s : System) → IsConsistent s → (d : Drainer) → DrainerOk s.tracker s.resets d → Relies s d
unfolding first_look
drainer-Relies s v resting h = tt
drainer-Relies s v (asked g) h = tt
drainer-Relies s v (armed g c) h = tt
drainer-Relies s v (waiting g c ch) h = tt
drainer-Relies s v (drained g) h = ground (arith, v.counts, v.locks)

-- However many handlers and callers of Drain run over one tracker, and however their sections, those
-- of ForceClose and those of Reset interleave, the count is always the number of connections that
-- handlers hold, and no channel is closed twice. When a Drain has returned because nothing was in
-- flight, then as long as no Reset has reopened the tracker since that Drain began, no handler holds
-- a connection or is about to, and an Acquire is refused.
pub drained_quiet :
    (n m : ℕ) (s : System)
    → Reach (start n m) s
    → (s.tracker.count ≡ pos (total holds s.handlers))
      × (s.tracker.panicked ≡ false)
      × All (Relies s) s.drainers
drained_quiet n m s r =
    let v = Reach-IsConsistent (start-IsConsistent n m) r in
    (v.counts, v.calm.0, All-each _ _ (drainer-Relies s v) s.drainers v.drainers)
