-- ===== src/Tracker/Cases.antt =====
-- Each step of a handler, a drainer or another goroutine (pkg/sandbox/conntracker.go) keeps the
-- invariant.
use wrenn.Prelude.{
  inl, ℕ, suc, ◌+◌, ◌-◌, ◌≡◌, inr, refl, ap, ◌∙◌, Bool, true, false, some, get_elem?, if◌then◌else◌,
  pos, arith,
}
use wrenn.Tracker.{
  Tracker, second_look, enter, release, wait_drain, begin_drain, arm_drain, context, cancel_context,
  reset_drain, reset_context, reset_open,
}
use wrenn.Tracker.Steps.{
  idle, passed, cleared, holding, resting, asked, armed, waiting, drained, System, with_handler,
  with_drainer,
}
use wrenn.Tracker.Consistent.{
  handler-IsConsistent, drainer-IsConsistent, Same, Same-Keeps, SameChannels, same_channels,
  wait-Keeps, wait_fields, wait_good, begin-Keeps, wake_good, reopened,
}
use wrenn.Tracker.Invariant.{
  Calm, same-Calm, IsConsistent, clears, holds, total, total-set, holds-pos, All-at, DrainerOk,
  parts, Keeps, enter-Keeps, second_look-Keeps, release-Keeps, enter-Channels, release-Channels,
  wait-Channels, All-each,
}

-- What is kept when the tracker stays as it is.
stays : (t : Tracker) (n : ℕ) → Keeps t t n
stays t n d h = h

pub look_case :
    (s : System) (i : ℕ)
    → get_elem? s.handlers i ≡ some idle
    → IsConsistent s
    → (b : Bool) → IsConsistent (with_handler s.tracker i (if b then passed else idle) s)
look_case s i at v true =
    handler-IsConsistent s i idle passed s.tracker v at (omega (arith, v.locks)) (parts v)
      (stays s.tracker s.resets) (total holds s.handlers) v.counts refl
look_case s i at v false =
    handler-IsConsistent s i idle idle s.tracker v at (omega (arith, v.locks)) (parts v)
      (stays s.tracker s.resets) (total holds s.handlers) v.counts refl

locked_out : (s : System) → IsConsistent s → s.tracker.locked ≡ false → total clears s.handlers ≡ 0
locked_out s v l = v.locks ∙ ap (λ b. if b then 1 else 0) l

second_look-same : (t : Tracker) → SameChannels t (second_look t).0
unfolding second_look
second_look-same t = ground arith

second_look-Calm : (t : Tracker) → Calm t → Calm (second_look t).0
unfolding second_look
second_look-Calm t calm =
    same-Calm t (second_look t).0 (ground arith, ground arith, ground arith, ground arith) calm

pub again_case :
    (s : System) (i : ℕ)
    → get_elem? s.handlers i ≡ some passed
    → s.tracker.locked ≡ false
    → IsConsistent s
    → IsConsistent (
        with_handler
          (second_look s.tracker).0
          i
          (if (second_look s.tracker).1 then cleared else idle)
          s)
unfolding second_look
again_case s i at l v =
    let t = (second_look s.tracker).0 in
    let h' = if (second_look s.tracker).1 then cleared else idle in
    handler-IsConsistent s i passed h' t v at (ground (arith, locked_out s v l))
      (same_channels s.tracker t (second_look-same s.tracker) (second_look-Calm s.tracker v.calm)
        (parts v))
      (second_look-Keeps s.tracker s.resets) (total holds s.handlers)
      ((second_look-same s.tracker).0 ∙ v.counts) (ground arith)

enter_fields :
    (t : Tracker) (k : ℕ)
    → t.count ≡ pos k
    → ((enter t).locked ≡ false) × ((enter t).count ≡ pos (suc k))
unfolding enter
enter_fields t k e = ground arith

-- The handler that passed the second look has the lock.
has_lock :
    (s : System) (i : ℕ)
    → IsConsistent s
    → get_elem? s.handlers i ≡ some cleared
    → (s.tracker.locked ≡ true) × (total clears s.handlers ≡ 1)
has_lock s i v at = ground (arith, v.locks, total-set clears s.handlers i cleared idle at)

pub acquire_case :
    (s : System) (i : ℕ)
    → get_elem? s.handlers i ≡ some cleared
    → IsConsistent s
    → IsConsistent (with_handler (enter s.tracker) i holding s)
acquire_case s i at v =
    let (l, one) = has_lock s i v at in
    let k = total holds s.handlers in
    let (free, n) = enter_fields s.tracker k v.counts in
    handler-IsConsistent s i cleared holding (enter s.tracker) v at (rw free (omega (arith, one)))
      (enter-Channels s.tracker k v.counts (parts v)) (enter-Keeps s.tracker s.resets l) (suc k) n
      (omega arith)

release_fields :
    (t : Tracker) (k : ℕ)
    → t.count ≡ pos (suc k)
    → ((release t).locked ≡ t.locked) × ((release t).count ≡ pos k)
unfolding release
release_fields t k e = ground arith

pub finish_case :
    (s : System) (i : ℕ)
    → get_elem? s.handlers i ≡ some holding
    → IsConsistent s
    → IsConsistent (with_handler (release s.tracker) i idle s)
finish_case s i at v =
    let k = total holds s.handlers - 1 in
    let some_held : total holds s.handlers ≡ suc k = omega (arith, holds-pos s.handlers i at) in
    let n = v.counts ∙ ap pos some_held in
    let (kept, n') = release_fields s.tracker k n in
    handler-IsConsistent s i holding idle (release s.tracker) v at
      (rw kept (omega (arith, v.locks))) (release-Channels s.tracker k n (parts v))
      (release-Keeps s.tracker s.resets k n) k n' (omega (arith, some_held))

pub ask_case :
    (s : System) (p : ℕ)
    → IsConsistent s
    → IsConsistent (with_drainer (begin_drain s.tracker) p (asked s.resets) s)
unfolding begin_drain
ask_case s p v =
    drainer-IsConsistent s p (asked s.resets) (begin_drain s.tracker) v refl refl
      (same_channels s.tracker (begin_drain s.tracker) (refl, refl, refl, refl)
        (same-Calm s.tracker (begin_drain s.tracker) (refl, refl, refl, refl) v.calm) (parts v))
      (begin-Keeps s.tracker s.resets) (inr (refl, refl))

arm-Same : (t : Tracker) → Same t (arm_drain t).0
unfolding arm_drain
arm-Same t = (refl, refl, refl, refl, refl, refl)

arm-Calm : (t : Tracker) → Calm t → Calm (arm_drain t).0
unfolding arm_drain
arm-Calm t (calm, un, opened) = (
  calm,
  λ c le. un c (omega arith),
  inr (t.cancel_made, refl, un t.cancel_made (omega arith), omega arith),
)

pub reset_drain-Calm : (t : Tracker) → Calm t → Calm (reset_drain t)
unfolding reset_drain
reset_drain-Calm t (calm, un, opened) = elim opened [
  | inl e ↦ (ground arith, λ c le. ground (arith, un c), inl (ground arith))
  | inr (x, e, o, lt) ↦ (ground arith, λ c le. ground (arith, un c), inl (ground arith))
]

pub context-Calm : (t : Tracker) → Calm t → Calm (context t).0
unfolding context
context-Calm t calm =
    same-Calm t (context t).0 (ground arith, ground arith, ground arith, ground arith) calm

pub cancel-Calm : (t : Tracker) → Calm t → Calm (cancel_context t)
unfolding cancel_context
cancel-Calm t calm =
    same-Calm t (cancel_context t) (ground arith, ground arith, ground arith, ground arith) calm

pub reset_context-Calm : (t : Tracker) → Calm t → Calm (reset_context t)
unfolding reset_context
reset_context-Calm t calm = same-Calm t (reset_context t) (refl, refl, refl, refl) calm

pub context-Same : (t : Tracker) → Same t (context t).0
unfolding context
context-Same t = ground arith

pub cancel-Same : (t : Tracker) → Same t (cancel_context t)
unfolding cancel_context
cancel-Same t = ground arith

pub reset_drain-Same : (t : Tracker) → Same t (reset_drain t)
unfolding reset_drain
reset_drain-Same t = ground arith

pub reset_context-Same : (t : Tracker) → Same t (reset_context t)
unfolding reset_context
reset_context-Same t = (refl, refl, refl, refl, refl, refl)

pub arm_case :
    (s : System) (p g : ℕ)
    → get_elem? s.drainers p ≡ some (asked g)
    → IsConsistent s
    → IsConsistent (with_drainer (arm_drain s.tracker).0 p (armed g (arm_drain s.tracker).1) s)
arm_case s p g at v =
    let t = (arm_drain s.tracker).0 in
    let e = arm-Same s.tracker in
    let keep = Same-Keeps s.tracker t s.resets e in
    let good = All-at (DrainerOk s.tracker s.resets) s.drainers p (asked g) v.drainers at in
    drainer-IsConsistent s p (armed g (arm_drain s.tracker).1) t v e.1 e.2
      (same_channels s.tracker t (e.2, e.3, e.4, e.5) (arm-Calm s.tracker v.calm) (parts v)) keep
      (keep (asked g) good)

pub wait_case :
    (s : System) (p g c : ℕ)
    → get_elem? s.drainers p ≡ some (armed g c)
    → s.tracker.locked ≡ false
    → IsConsistent s
    → IsConsistent
        (with_drainer (wait_drain s.tracker).0 p (waiting g c (wait_drain s.tracker).1) s)
wait_case s p g c at l v =
    let (kept, n) = wait_fields s.tracker in
    let good = All-at (DrainerOk s.tracker s.resets) s.drainers p (armed g c) v.drainers at in
    drainer-IsConsistent s p (waiting g c (wait_drain s.tracker).1) (wait_drain s.tracker).0 v kept
      n (wait-Channels s.tracker (parts v)) (wait-Keeps s.tracker s.resets)
      (wait_good s.tracker s.resets g c c l good)

pub wake_case :
    (s : System) (p g c ch : ℕ)
    → get_elem? s.drainers p ≡ some (waiting g c (some ch))
    → s.tracker.zero_closed ch ≡ true
    → IsConsistent s
    → IsConsistent (with_drainer s.tracker p (drained g) s)
wake_case s p g c ch at e v =
    let d = waiting g c (some ch) in
    let good = All-at (DrainerOk s.tracker s.resets) s.drainers p d v.drainers at in
    drainer-IsConsistent s p (drained g) s.tracker v refl refl (parts v) (stays s.tracker s.resets)
      (wake_good s.tracker s.resets g c ch (parts v) e good)

pub rest_case :
    (s : System) (p : ℕ) → IsConsistent s → IsConsistent (with_drainer s.tracker p resting s)
rest_case s p v =
    drainer-IsConsistent s p resting s.tracker v refl refl (parts v) (stays s.tracker s.resets) tt

pub reopen_case :
    (s : System)
    → IsConsistent s
    → IsConsistent (record s { tracker = reset_open s.tracker; resets = s.resets + 1 })
unfolding reset_open
reopen_case s v = record {
  locks = v.locks;
  counts = v.counts;
  channel = v.channel;
  unmade = v.unmade;
  calm = v.calm;
  drainers = All-each _ _ (reopened s.tracker s.resets) s.drainers v.drainers;
}
