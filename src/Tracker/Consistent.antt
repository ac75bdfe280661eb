-- ===== src/Tracker/Consistent.antt =====
-- A change of a handler, of a caller of Drain or of the tracker (pkg/sandbox/conntracker.go) that
-- keeps the invariant, and what the sections of Drain and Reset keep of it.
use wrenn.Prelude.{
  ℕ, ◌+◌, ◌≡◌, inl, inr, ap, ◌∙◌, true, false, some, get_elem?, if◌then◌else◌, pos, arith,
}
use wrenn.Tracker.{Tracker, wait_drain, begin_drain, reset_open}
use wrenn.Tracker.Steps.{
  Handler, Drainer, resting, asked, armed, waiting, drained, System, with_handler, with_drainer,
  with_tracker,
}
use wrenn.Tracker.Invariant.{
  IsConsistent, clears, holds, total, total-set, All-set, All-each, DrainerOk, Keeps, Channels,
  parts, Calm,
}

-- A section of a handler.
pub handler-IsConsistent :
    (s : System) (i : ℕ) (h h' : Handler) (t : Tracker)
    → IsConsistent s
    → get_elem? s.handlers i ≡ some h
    → total clears s.handlers + clears h' ≡ (if t.locked then 1 else 0) + clears h
    → Channels t
    → Keeps s.tracker t s.resets
    → (k : ℕ) → t.count ≡ pos k
    → k + holds h ≡ total holds s.handlers + holds h'
    → IsConsistent (with_handler t i h' s)
handler-IsConsistent s i h h' t v at l (ch, un, calm) keep k n m = record {
  locks = omega (arith, total-set clears s.handlers i h h' at);
  counts = n ∙ ap pos (omega (arith, total-set holds s.handlers i h h' at));
  channel = ch;
  unmade = un;
  calm = calm;
  drainers = All-each _ _ keep s.drainers v.drainers;
}

pub drainer-IsConsistent :
    (s : System) (p : ℕ) (d : Drainer) (t : Tracker)
    → IsConsistent s
    → t.locked ≡ s.tracker.locked
    → t.count ≡ s.tracker.count
    → Channels t
    → Keeps s.tracker t s.resets
    → DrainerOk t s.resets d
    → IsConsistent (with_drainer t p d s)
drainer-IsConsistent s p d t v l n (ch, un, calm) keep good = record {
  locks = rw l v.locks;
  counts = n ∙ v.counts;
  channel = ch;
  unmade = un;
  calm = calm;
  drainers =
      All-set (DrainerOk t s.resets) s.drainers p d (All-each _ _ keep s.drainers v.drainers) good;
}

pub tracker-IsConsistent :
    (s : System) (t : Tracker)
    → IsConsistent s
    → t.locked ≡ s.tracker.locked
    → t.count ≡ s.tracker.count
    → Channels t
    → Keeps s.tracker t s.resets
    → IsConsistent (with_tracker t s)
tracker-IsConsistent s t v l n (ch, un, calm) keep = record {
  locks = rw l v.locks;
  counts = n ∙ v.counts;
  channel = ch;
  unmade = un;
  calm = calm;
  drainers = All-each _ _ keep s.drainers v.drainers;
}

-- A change of other fields.
abbrev pub Same : Tracker → Tracker → Type 0
Same t t' =
    (t'.draining ≡ t.draining)
    × (t'.locked ≡ t.locked)
    × (t'.count ≡ t.count)
    × (t'.zero_ch ≡ t.zero_ch)
    × (t'.zero_closed ≡ t.zero_closed)
    × (t'.zero_made ≡ t.zero_made)

pub Same-Keeps : (t t' : Tracker) (n : ℕ) → Same t t' → Keeps t t' n
Same-Keeps t t' n e resting h = tt
Same-Keeps t t' n e (asked g) h = ground arith
Same-Keeps t t' n e (armed g c) h = ground arith
Same-Keeps t t' n e (waiting g c ch) h = ground arith
Same-Keeps t t' n e (drained g) h = ground arith

-- The channels do not depend on the other fields.
abbrev pub SameChannels : Tracker → Tracker → Type 0
SameChannels t t' =
    (t'.count ≡ t.count)
    × (t'.zero_ch ≡ t.zero_ch)
    × (t'.zero_closed ≡ t.zero_closed)
    × (t'.zero_made ≡ t.zero_made)

pub same_channels : (t t' : Tracker) → SameChannels t t' → Calm t' → Channels t → Channels t'
same_channels t t' (n, z, cl, m) calm' (ch, un, calm) = (
  elim ch [
    | inl (a, b) ↦ inl (n ∙ a, z ∙ b)
    | inr (x, k, a, b, o, lt) ↦ inr (x, k, n ∙ a, z ∙ b, ap (λ f. f x) cl ∙ o, omega arith)
  ],
  λ c le. ap (λ f. f c) cl ∙ un c (omega arith),
  calm',
)

pub Same-step :
    (s : System) (t : Tracker)
    → Same s.tracker t
    → Calm t
    → IsConsistent s
    → IsConsistent (with_tracker t s)
Same-step s t e calm v =
    tracker-IsConsistent s t v e.1 e.2
      (same_channels s.tracker t (e.2, e.3, e.4, e.5) calm (parts v))
      (Same-Keeps s.tracker t s.resets e)

pub wait-Keeps : (t : Tracker) (n : ℕ) → Keeps t (wait_drain t).0 n
unfolding wait_drain
wait-Keeps t n resting h = tt
wait-Keeps t n (asked g) h = ground arith
wait-Keeps t n (armed g c) h = ground arith
wait-Keeps t n (waiting g c ch) h = ground arith
wait-Keeps t n (drained g) h = ground arith

pub wait_fields :
    (t : Tracker) → ((wait_drain t).0.locked ≡ t.locked) × ((wait_drain t).0.count ≡ t.count)
unfolding wait_drain
wait_fields t = ground arith

-- What a caller that looks under mu finds.
pub wait_good :
    (t : Tracker) (n g c c' : ℕ)
    → t.locked ≡ false
    → DrainerOk t n (armed g c')
    → DrainerOk (wait_drain t).0 n (waiting g c (wait_drain t).1)
unfolding wait_drain
wait_good t n g c c' l h = ground arith

pub begin-Keeps : (t : Tracker) (n : ℕ) → Keeps t (begin_drain t) n
unfolding begin_drain
begin-Keeps t n resting h = tt
begin-Keeps t n (asked g) h = ground arith
begin-Keeps t n (armed g c) h = ground arith
begin-Keeps t n (waiting g c ch) h = ground arith
begin-Keeps t n (drained g) h = ground arith

-- A caller that finds its channel closed found nothing in flight.
pub wake_good :
    (t : Tracker) (n g c ch : ℕ)
    → Channels t
    → t.zero_closed ch ≡ true
    → DrainerOk t n (waiting g c (some ch))
    → DrainerOk t n (drained g)
wake_good t n g c ch (ok_ch, un, calm) e h = ground arith

-- A Reset is over for every caller that asked before it.
pub reopened :
    (t : Tracker) (n : ℕ) (d : Drainer) → DrainerOk t n d → DrainerOk (reset_open t) (n + 1) d
unfolding reset_open
reopened t n resting h = tt
reopened t n (asked g) h = ground arith
reopened t n (armed g c) h = ground arith
reopened t n (waiting g c ch) h = ground arith
reopened t n (drained g) h = ground arith
