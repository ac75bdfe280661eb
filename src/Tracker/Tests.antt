-- ===== src/Tracker/Tests.antt =====
-- One connection and one drain over a tracker.
use wrenn.Prelude.{◌≡◌, refl, true, false, some, none, pos, All, [], ◌∷◌, ◌==◌, if◌then◌else◌}
use wrenn.Tracker.{first_look, second_look, enter, release, wait_drain, begin_drain, arm_drain}
use wrenn.Tracker.Steps.{
  idle, drained, System, Reach, here, next, look, look_again, acquire, finish, ask, arm, wait, wake,
}
use wrenn.Tracker.Invariant.{total, holds}
use wrenn.Tracker.Drained.{start, Relies, drained_quiet}

-- The drain begins while the connection is in flight, and returns when it ends.
abbrev after : System
after = record {
  tracker = record {
    draining = true;
    locked = false;
    count = pos 0;
    zero_ch = none;
    zero_closed = λ c. if c == 0 then true else false;
    zero_made = 1;
    cancel_drain = some 0;
    cancel_closed = λ c. false;
    cancel_made = 1;
    ctx = none;
    ctx_cancelled = λ c. false;
    ctx_made = 0;
    panicked = false;
  };
  handlers = idle ∷ [];
  drainers = drained 0 ∷ [];
  resets = 0;
}

one_drain : Reach (start 1 1) after
unfolding first_look second_look enter release wait_drain begin_drain arm_drain
one_drain =
    next
      (next
        (next
          (next
            (next
              (next (next (next here (look _ 0 refl)) (look_again _ 0 refl refl))
                (acquire _ 0 refl))
              (ask _ 0 refl))
            (arm _ 0 0 refl))
          (wait _ 0 0 0 refl refl))
        (finish _ 0 refl refl))
      (wake _ 0 0 0 0 refl refl)

drained_quiet_example :
    (after.tracker.count ≡ pos (total holds after.handlers))
    × (after.tracker.panicked ≡ false)
    × All (Relies after) after.drainers
drained_quiet_example = drained_quiet 1 1 after one_drain
