-- ===== src/Regexp/Groups.antt =====
-- Groups of one class of characters, joined by single characters of another: f+(gf+)*.
use wrenn.Prelude.{
  ℕ, ◌≡◌, refl, inl, inr, Bool, true, false, ◌&&◌, [], ◌∷◌, arith, Text, Bool-cases, if◌then◌else◌,
}
use wrenn.Regexp.{Regexp, never, empty, class, seq, star, plus, nullable, derive, matches}
use wrenn.Regexp.Laws.{matches-either, matches-never-seq, matches-empty-seq, seq_nothing}

seq_cong :
    (q r k : Regexp) (s : Text)
    → ((t : Text) → matches q t ≡ matches r t)
    → matches (seq q k) s ≡ matches (seq r k) s
unfolding matches
seq_cong q r k [] h = ground (arith, h [])
seq_cong q r k (c ∷ cs) h =
    let ends : nullable q ≡ nullable r = h [] in
    let rest = seq_cong (derive c q) (derive c r) k cs (λ t. h (c ∷ t)) in
    elim (Bool-cases (nullable r)) [
      | inl e ↦ rw (
        ends,
        e,
        matches-either (seq (derive c q) k) (derive c k) cs,
        matches-either (seq (derive c r) k) (derive c k) cs,
        rest,
      )
      | inr e ↦ rw (ends, e) rest
    ]

unfoldable pub groups : (ℕ → Bool) → (ℕ → Bool) → Bool → Text → Bool
groups f g inside [] = inside
groups f g inside (c ∷ cs) =
    let more = groups f g true cs in
    let next = groups f g false cs in if f c then more else if inside && g c then next else false

after_empty : (x k : Regexp) (s : Text) → matches (seq (seq empty x) k) s ≡ matches (seq x k) s
after_empty x k s = seq_cong (seq empty x) x k s (matches-empty-seq x)

after_never : (x k : Regexp) (s : Text) → matches (seq (seq never x) k) s ≡ false
after_never x k s = seq_nothing (seq never x) k s (matches-never-seq x)

module _ (f g : ℕ → Bool) (apart : (c : ℕ) → f c ≡ true → g c ≡ false) where
  abbrev joined : Regexp
  joined = star (seq (class g) (plus (class f)))

  abbrev from_here : Bool → Regexp
  from_here true = seq (star (class f)) joined
  from_here false = seq (plus (class f)) joined

  -- A pattern that is inside a group, or that waits for one, matches what the scan accepts.
  matches-from_here : (b : Bool) (s : Text) → matches (from_here b) s ≡ groups f g b s
  unfolding matches groups
  matches-from_here true [] = refl
  matches-from_here false [] = refl
  matches-from_here true (c ∷ cs) = elim (Bool-cases (f c)) [
    | inl e ↦
        rw
          (
            e,
            apart c e,
            matches-either (seq (seq empty (star (class f))) joined)
                (seq (seq never (plus (class f))) joined) cs,
            after_empty (star (class f)) joined cs,
            after_never (plus (class f)) joined cs,
            matches-from_here true cs,
          )
          (ground arith)
    | inr e ↦ elim (Bool-cases (g c)) [
      | inl d ↦
          rw
            (
              e,
              d,
              matches-either (seq (seq never (star (class f))) joined)
                  (seq (seq empty (plus (class f))) joined) cs,
              after_never (star (class f)) joined cs,
              after_empty (plus (class f)) joined cs,
            )
            (matches-from_here false cs)
      | inr d ↦
          rw
            (
              e,
              d,
              matches-either (seq (seq never (star (class f))) joined)
                  (seq (seq never (plus (class f))) joined) cs,
              after_never (star (class f)) joined cs,
              after_never (plus (class f)) joined cs,
            )
            refl
    ]
  ]
  matches-from_here false (c ∷ cs) = elim (Bool-cases (f c)) [
    | inl e ↦ rw (e, after_empty (star (class f)) joined cs) (matches-from_here true cs)
    | inr e ↦ rw (e, after_never (star (class f)) joined cs) refl
  ]

  pub matches-groups :
      (s : Text)
      → matches (seq (plus (class f)) (star (seq (class g) (plus (class f))))) s
        ≡ groups f g false s
  matches-groups s = matches-from_here false s
