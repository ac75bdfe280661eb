-- ===== src/Tracker/Invariant.antt =====
-- What holds of the tracker, its handlers and the callers of Drain between any two sections
-- (pkg/sandbox/conntracker.go), and what the sections of a handler keep of it.
use wrenn.Prelude.{
  ℕ, zero, suc, ◌+◌, ◌≤◌, ◌<◌, ◌≡◌, ◌⊎◌, inl, inr, subst, ap, ◌∙◌, true, false, List, [], ◌∷◌, none,
  some, get_elem?, if◌then◌else◌, pos, All, arith,
}
use wrenn.Tracker.{Tracker, second_look, enter, release, wait_drain}
use wrenn.Tracker.Steps.{
  Handler, idle, passed, cleared, holding, Drainer, resting, asked, armed, waiting, drained, System,
  set,
}

abbrev pub clears : Handler → ℕ
clears idle = 0
clears passed = 0
clears cleared = 1
clears holding = 0

abbrev pub holds : Handler → ℕ
holds idle = 0
holds passed = 0
holds cleared = 0
holds holding = 1

abbrev pub total : (Handler → ℕ) → List Handler → ℕ
total w [] = 0
total w (h ∷ hs) = w h + total w hs

pub total-set :
    (w : Handler → ℕ) (hs : List Handler) (i : ℕ) (h h' : Handler)
    → get_elem? hs i ≡ some h
    → total w (set hs i h') + w h ≡ total w hs + w h'
total-set w [] i h h' e = cc
total-set w (x ∷ hs) zero h h' e = ground (arith, e)
total-set w (x ∷ hs) (suc i) h h' e = omega (arith, total-set w hs i h h' e)

pub All-at :
    (P : Drainer → Type 0) (ds : List Drainer) (p : ℕ) (d : Drainer)
    → All P ds
    → get_elem? ds p ≡ some d
    → P d
All-at P [] p d h e = cc
All-at P (x ∷ ds) zero d h e = let same : x ≡ d = cc in subst P same h.0
All-at P (x ∷ ds) (suc p) d h e = All-at P ds p d h.1 e

pub All-set :
    (P : Drainer → Type 0) (ds : List Drainer) (p : ℕ) (d : Drainer)
    → All P ds
    → P d
    → All P (set ds p d)
All-set P [] p d h k = tt
All-set P (x ∷ ds) zero d h k = (k, h.1)
All-set P (x ∷ ds) (suc p) d h k = (h.0, All-set P ds p d h.1 k)

pub All-each :
    (P Q : Drainer → Type 0)
    → ((d : Drainer) → P d → Q d)
    → (ds : List Drainer) → All P ds
    → All Q ds
All-each P Q f [] h = tt
All-each P Q f (x ∷ ds) h = (f x h.0, All-each P Q f ds h.1)

-- The lock is free and nothing is in flight, and it stays so while the tracker is draining.
abbrev pub Quiet : Tracker → Type 0
Quiet t = (t.draining ≡ true) × (t.locked ≡ false) × (t.count ≡ pos 0)

-- What a caller of Drain knows, unless there was a Reset since it asked.
abbrev pub DrainerOk : Tracker → ℕ → Drainer → Type 0
DrainerOk t n resting = Unit {0}
DrainerOk t n (asked g) = (g < n) ⊎ ((g ≡ n) × (t.draining ≡ true))
DrainerOk t n (armed g c) = (g < n) ⊎ ((g ≡ n) × (t.draining ≡ true))
DrainerOk t n (waiting g c ch) =
    (g < n)
    ⊎ ((g ≡ n) × (t.draining ≡ true) × (t.locked ≡ false) × ((t.zero_ch ≡ ch) ⊎ (t.count ≡ pos 0)))
DrainerOk t n (drained g) = (g < n) ⊎ ((g ≡ n) × Quiet t)

-- The channel that is closed when the last connection ends is there and open exactly while one is in
-- flight.
abbrev pub ChannelOk : Tracker → Type 0
ChannelOk t =
    ((t.count ≡ pos 0) × (t.zero_ch ≡ none))
    ⊎ ((ch : ℕ) × (n : ℕ) × (t.count ≡ pos (suc n))
        × (t.zero_ch ≡ some ch)
        × (t.zero_closed ch ≡ false)
        × (ch < t.zero_made))

-- No close has panicked, and the channel by which Reset ends a wait is open while it is there.
abbrev pub Calm : Tracker → Type 0
Calm t =
    (t.panicked ≡ false)
    × ((c : ℕ) → t.cancel_made ≤ c → t.cancel_closed c ≡ false)
    × ((t.cancel_drain ≡ none)
        ⊎ ((c : ℕ) × (t.cancel_drain ≡ some c) × (t.cancel_closed c ≡ false) × (c < t.cancel_made)))

abbrev pub SameCancel : Tracker → Tracker → Type 0
SameCancel t t' =
    (t'.panicked ≡ t.panicked)
    × (t'.cancel_drain ≡ t.cancel_drain)
    × (t'.cancel_closed ≡ t.cancel_closed)
    × (t'.cancel_made ≡ t.cancel_made)

pub same-Calm : (t t' : Tracker) → SameCancel t t' → Calm t → Calm t'
same-Calm t t' (p, d, cl, m) (calm, un, opened) = (
  p ∙ calm,
  λ c le. ap (λ f. f c) cl ∙ un c (omega arith),
  elim opened [
    | inl e ↦ inl (d ∙ e)
    | inr (c, e, o, lt) ↦ inr (c, d ∙ e, ap (λ f. f c) cl ∙ o, omega arith)
  ],
)

pub record IsConsistent (s : System) : Type 0 where
  pub locks : total clears s.handlers ≡ (if s.tracker.locked then 1 else 0)
  pub counts : s.tracker.count ≡ pos (total holds s.handlers)
  pub channel : ChannelOk s.tracker
  pub unmade : (c : ℕ) → s.tracker.zero_made ≤ c → s.tracker.zero_closed c ≡ false
  pub calm : Calm s.tracker
  pub drainers : All (DrainerOk s.tracker s.resets) s.drainers

-- Drainers that a change of the tracker leaves right.
abbrev pub Keeps : Tracker → Tracker → ℕ → Type 0
Keeps t t' n = (d : Drainer) → DrainerOk t n d → DrainerOk t' n d

pub enter-Keeps : (t : Tracker) (n : ℕ) → t.locked ≡ true → Keeps t (enter t) n
unfolding enter
enter-Keeps t n l resting h = tt
enter-Keeps t n l (asked g) h = ground arith
enter-Keeps t n l (armed g c) h = ground arith
enter-Keeps t n l (waiting g c ch) h = ground arith
enter-Keeps t n l (drained g) h = ground arith

pub second_look-Keeps : (t : Tracker) (n : ℕ) → Keeps t (second_look t).0 n
unfolding second_look
second_look-Keeps t n resting h = tt
second_look-Keeps t n (asked g) h = ground arith
second_look-Keeps t n (armed g c) h = ground arith
second_look-Keeps t n (waiting g c ch) h = ground arith
second_look-Keeps t n (drained g) h = ground arith

pub release-Keeps : (t : Tracker) (n k : ℕ) → t.count ≡ pos (suc k) → Keeps t (release t) n
unfolding release
release-Keeps t n k e resting h = tt
release-Keeps t n k e (asked g) h = ground arith
release-Keeps t n k e (armed g c) h = ground arith
release-Keeps t n k e (waiting g c ch) h = ground arith
release-Keeps t n k e (drained g) h = ground arith

-- The channel, and the channels that are not made yet.
abbrev pub Channels : Tracker → Type 0
Channels t = ChannelOk t × ((c : ℕ) → t.zero_made ≤ c → t.zero_closed c ≡ false) × Calm t

enter-Calm : (t : Tracker) → Calm t → Calm (enter t)
unfolding enter
enter-Calm t calm =
    same-Calm t (enter t) (ground arith, ground arith, ground arith, ground arith) calm

wait-Calm : (t : Tracker) → Calm t → Calm (wait_drain t).0
unfolding wait_drain
wait-Calm t calm =
    same-Calm t (wait_drain t).0 (ground arith, ground arith, ground arith, ground arith) calm

-- A release closes a channel only where it is open.
release-Calm :
    (t : Tracker) (k : ℕ) → t.count ≡ pos (suc k) → ChannelOk t → Calm t → Calm (release t)
unfolding release
release-Calm t k e ch calm = elim ch [
  | inl (none_in, absent) ↦ cc
  | inr (x, n, a, b, o, lt) ↦
      same-Calm t (release t) (ground arith, ground arith, ground arith, ground arith) calm
]

pub enter-Channels : (t : Tracker) (k : ℕ) → t.count ≡ pos k → Channels t → Channels (enter t)
unfolding enter
enter-Channels t zero e (ch, un, calm) = (
  inr (t.zero_made, 0, ground arith, ground arith, ground (arith, un t.zero_made), ground arith),
  λ c le. ground (arith, un c),
  enter-Calm t calm,
)
enter-Channels t (suc k) e (ch, un, calm) = elim ch [
  | inl (none_in, absent) ↦ cc
  | inr (x, n, a, b, o, lt) ↦ (
    inr (x, suc k, ground arith, ground arith, ground arith, ground arith),
    λ c le. ground (arith, un c),
    enter-Calm t calm,
  )
]

pub release-Channels :
    (t : Tracker) (k : ℕ) → t.count ≡ pos (suc k) → Channels t → Channels (release t)
unfolding release
release-Channels t zero e (ch, un, calm) =
    let kept = release-Calm t 0 e ch calm in
    elim ch [
      | inl (none_in, absent) ↦ cc
      | inr (x, n, a, b, o, lt) ↦
          (inl (ground arith, ground arith), λ c le. ground (arith, un c), kept)
    ]
release-Channels t (suc k) e (ch, un, calm) =
    let kept = release-Calm t (suc k) e ch calm in
    elim ch [
      | inl (none_in, absent) ↦ cc
      | inr (x, n, a, b, o, lt) ↦ (
        inr (x, k, ground arith, ground arith, ground arith, ground arith),
        λ c le. ground (arith, un c),
        kept,
      )
    ]

pub wait-Channels : (t : Tracker) → Channels t → Channels (wait_drain t).0
unfolding wait_drain
wait-Channels t (ch, un, calm) = elim ch [
  | inl (none_in, absent) ↦
      (inl (ground arith, ground arith), λ c le. ground (arith, un c), wait-Calm t calm)
  | inr (x, n, a, b, o, lt) ↦ (
    inr (x, n, ground arith, ground arith, ground arith, ground arith),
    λ c le. ground (arith, un c),
    wait-Calm t calm,
  )
]

pub parts : {s : System} → IsConsistent s → Channels s.tracker
parts v = (v.channel, v.unmade, v.calm)

pub holds-pos : (hs : List Handler) (i : ℕ) → get_elem? hs i ≡ some holding → 0 < total holds hs
holds-pos hs i e = omega (arith, total-set holds hs i holding idle e)
