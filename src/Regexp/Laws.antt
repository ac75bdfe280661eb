-- ===== src/Regexp/Laws.antt =====
-- What a pattern matches, by its form.
use wrenn.Prelude.{
  ℕ, zero, suc, ◌≡◌, refl, sym, ◌≢◌, leb, ◌∙◌, inl, inr, Bool, true, false, ◌&&◌, ◌||◌, [], ◌∷◌,
  arith, length, all, Text, Bool-cases,
}
use wrenn.Regexp.{Regexp, never, empty, class, seq, either, star, nullable, derive, matches, up_to}

pub matches-never : (s : Text) → matches never s ≡ false
unfolding matches
matches-never [] = refl
matches-never (c ∷ cs) = matches-never cs

pub matches-either :
    (q r : Regexp) (s : Text) → matches (either q r) s ≡ (matches q s || matches r s)
unfolding matches
matches-either q r [] = refl
matches-either q r (c ∷ cs) = matches-either (derive c q) (derive c r) cs

pub matches-never-seq : (r : Regexp) (s : Text) → matches (seq never r) s ≡ false
unfolding matches
matches-never-seq r [] = refl
matches-never-seq r (c ∷ cs) = matches-never-seq r cs

pub matches-empty-seq : (r : Regexp) (s : Text) → matches (seq empty r) s ≡ matches r s
unfolding matches
matches-empty-seq r [] = refl
matches-empty-seq r (c ∷ cs) =
    matches-either (seq never r) (derive c r) cs ∙ ground (arith, matches-never-seq r cs)

-- A class, then a pattern.
pub matches-class-seq :
    (f : ℕ → Bool) (r : Regexp) (c : ℕ) (s : Text)
    → matches (seq (class f) r) (c ∷ s) ≡ (f c && matches r s)
unfolding matches
matches-class-seq f r c s = elim (Bool-cases (f c)) [
  | inl e ↦ rw e (matches-empty-seq r s)
  | inr e ↦ rw e (matches-never-seq r s)
]

pub matches-class-seq-nil : (f : ℕ → Bool) (r : Regexp) → matches (seq (class f) r) [] ≡ false
unfolding matches
matches-class-seq-nil f r = refl

true_ne_false : true ≢ false
true_ne_false e = cc

-- Every class of the pattern lies within `p`.
abbrev pub Within : (ℕ → Bool) → Regexp → Type 0
Within p never = Unit {0}
Within p empty = Unit {0}
Within p (class f) = (c : ℕ) → f c ≡ true → p c ≡ true
Within p (seq r s) = Within p r × Within p s
Within p (either r s) = Within p r × Within p s
Within p (star r) = Within p r

Within-derive : (p : ℕ → Bool) (c : ℕ) (r : Regexp) → Within p r → Within p (derive c r)
Within-derive p c never w = tt
Within-derive p c empty w = tt
Within-derive p c (class f) w = elim (Bool-cases (f c)) [ inl e ↦ rw e tt | inr e ↦ rw e tt ]
Within-derive p c (seq r s) w = elim (Bool-cases (nullable r)) [
  | inl e ↦ rw e ((Within-derive p c r w.0, w.1), Within-derive p c s w.1)
  | inr e ↦ rw e (Within-derive p c r w.0, w.1)
]
Within-derive p c (either r s) w = (Within-derive p c r w.0, Within-derive p c s w.1)
Within-derive p c (star r) w = (Within-derive p c r w, w)

-- If a pattern matches nothing, no more does what begins with it.
pub seq_nothing :
    (r q : Regexp) (s : Text) → ((t : Text) → matches r t ≡ false) → matches (seq r q) s ≡ false
unfolding matches
seq_nothing r q [] h = ground (arith, h [])
seq_nothing r q (c ∷ cs) h =
    let no_end : nullable r ≡ false = h [] in
    rw no_end (seq_nothing (derive c r) q cs (λ t. h (c ∷ t)))

-- No first character outside of `p` leaves anything that can match.
derive_outside :
    (p : ℕ → Bool) (c : ℕ) (r : Regexp)
    → Within p r
    → p c ≡ false
    → (s : Text) → matches (derive c r) s ≡ false
derive_outside p c never w h s = matches-never s
derive_outside p c empty w h s = matches-never s
derive_outside p c (class f) w h s = elim (Bool-cases (f c)) [
  | inl e ↦ absurd (true_ne_false (sym (w c e) ∙ h))
  | inr e ↦ rw e (matches-never s)
]
derive_outside p c (seq r q) w h s =
    let first = seq_nothing (derive c r) q s (derive_outside p c r w.0 h) in
    elim (Bool-cases (nullable r)) [
      | inl e ↦
          rw (e, matches-either (seq (derive c r) q) (derive c q) s, first)
            (derive_outside p c q w.1 h s)
      | inr e ↦ rw e first
    ]
derive_outside p c (either r q) w h s =
    rw (matches-either (derive c r) (derive c q) s, derive_outside p c r w.0 h s)
      (derive_outside p c q w.1 h s)
derive_outside p c (star r) w h s = seq_nothing (derive c r) (star r) s (derive_outside p c r w h)

-- A text that matches holds no character outside of the pattern's classes.
pub matches-all :
    (p : ℕ → Bool) (r : Regexp) (s : Text) → Within p r → matches r s ≡ true → all p s ≡ true
unfolding matches
matches-all p r [] w h = refl
matches-all p r (c ∷ cs) w h = elim (Bool-cases (p c)) [
  | inl e ↦ rw e (matches-all p (derive c r) cs (Within-derive p c r w) h)
  | inr e ↦ absurd (true_ne_false (sym h ∙ derive_outside p c r w e cs))
]

-- f{0,n} matches the texts of at most n characters of the class.
pub matches-up_to :
    (f : ℕ → Bool) (n : ℕ) (s : Text)
    → matches (up_to n (class f)) s ≡ (leb (length s) n && all f s)
unfolding matches
matches-up_to f zero [] = ground arith
matches-up_to f zero (c ∷ cs) = rw (matches-never cs) (ground arith)
matches-up_to f (suc n) [] = ground arith
matches-up_to f (suc n) (c ∷ cs) =
    rw
      (
        matches-either never (derive c (seq (class f) (up_to n (class f)))) cs,
        matches-never cs,
        matches-class-seq f (up_to n (class f)) c cs,
      )
      (ground (arith, matches-up_to f n cs))
