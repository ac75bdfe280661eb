-- ===== src/Recipe/Stays.antt =====
-- The sources of a COPY step stay in the archive (internal/recipe/executor.go): what path.Clean
-- makes of them.
use wrenn.Prelude.{
  ℕ, suc, ◌≡◌, refl, ap, ◌∙◌, sym, subst, ◌⊎◌, inl, inr, Bool, true, false, not, ◌||◌, List, [],
  ◌∷◌, ◌++◌, Option, none, some, ◌==◌, Text, text_eq, codes, arith, Bool-cases, All, all, length,
  is_nil, has_prefix, Outcome, err, ok, Outcome-cases,
}
use wrenn.Recipe.Paths.{
  dots, elements, join_first, ascend, place, keep, joined, or_dot, clean_relative, clean,
}
use wrenn.Recipe.Copying.{escapes, src_paths, build_files_dir}

abbrev not_slash : ℕ → Bool
not_slash c = not (c == b'/')

abbrev NoSlash : Text → Type 0
NoSlash w = all not_slash w ≡ true

abbrev pub NotDots : Text → Type 0
NotDots w = text_eq w dots ≡ false

join_first-NoSlash :
    (c : ℕ) (ws : List Text) → (c == b'/') ≡ false → All NoSlash ws → All NoSlash (join_first c ws)
join_first-NoSlash c [] e h = (ground arith, tt)
join_first-NoSlash c (w ∷ ws) e h = (ground arith, h.1)

elements-NoSlash : (s : Text) → All NoSlash (elements s)
elements-NoSlash [] = (refl, tt)
elements-NoSlash (c ∷ cs) = elim (Bool-cases (c == b'/')) [
  | inl e ↦ rw e (refl, elements-NoSlash cs)
  | inr e ↦ rw e (join_first-NoSlash c (elements cs) e (elements-NoSlash cs))
]

-- The first element of the path, when the last comes first.
abbrev bottom : List Text → Option Text
bottom [] = none
bottom (w ∷ []) = some w
bottom (w ∷ v ∷ vs) = bottom (v ∷ vs)

-- No element that is kept is a parent, or the first one is.
abbrev Kept : List Text → Type 0
Kept ws = All NotDots ws ⊎ (bottom ws ≡ some dots)

push-Kept : (w : Text) (ws : List Text) → NotDots w → Kept ws → Kept (w ∷ ws)
push-Kept w [] e (inl h) = inl (e, h)
push-Kept w [] e (inr b) = cc
push-Kept w (v ∷ vs) e (inl h) = inl (e, h)
push-Kept w (v ∷ vs) e (inr b) = inr b

ascend-Kept : (ws : List Text) → Kept ws → Kept (ascend false ws)
ascend-Kept [] h = inr refl
ascend-Kept (w ∷ []) (inl h) = rw (ascend, h.0) (inl tt)
ascend-Kept (w ∷ []) (inr b) = elim (Bool-cases (text_eq w dots)) [
  | inl e ↦ rw (ascend, e) (inr b)
  | inr e ↦ rw (ascend, e) (inl tt)
]
ascend-Kept (w ∷ v ∷ vs) (inl h) = rw (ascend, h.0) (inl h.1)
ascend-Kept (w ∷ v ∷ vs) (inr b) = elim (Bool-cases (text_eq w dots)) [
  | inl e ↦ rw (ascend, e) (inr b)
  | inr e ↦ rw (ascend, e) (inr b)
]

place-Kept : (w : Text) (ws : List Text) → Kept ws → Kept (place false w ws)
place-Kept w ws h = elim (Bool-cases (is_nil w || text_eq w (codes "."))) [
  | inl e ↦ rw (place, e) h
  | inr e ↦ elim (Bool-cases (text_eq w dots)) [
    | inl d ↦ rw (place, e, d) (ascend-Kept ws h)
    | inr d ↦ rw (place, e, d) (push-Kept w ws d h)
  ]
]

ascend-NoSlash : (ws : List Text) → All NoSlash ws → All NoSlash (ascend false ws)
ascend-NoSlash [] h = (refl, tt)
ascend-NoSlash (w ∷ ws) h = elim (Bool-cases (text_eq w dots)) [
  | inl e ↦ rw (ascend, e) (refl, h)
  | inr e ↦ rw (ascend, e) h.1
]

place-NoSlash :
    (w : Text) (ws : List Text) → NoSlash w → All NoSlash ws → All NoSlash (place false w ws)
place-NoSlash w ws e h = elim (Bool-cases (is_nil w || text_eq w (codes "."))) [
  | inl n ↦ rw (place, n) h
  | inr n ↦ elim (Bool-cases (text_eq w dots)) [
    | inl d ↦ rw (place, n, d) (ascend-NoSlash ws h)
    | inr d ↦ rw (place, n, d) (e, h)
  ]
]

keep_invariant :
    (kept ws : List Text)
    → All NoSlash ws
    → All NoSlash kept
    → Kept kept
    → All NoSlash (keep false kept ws) × Kept (keep false kept ws)
unfolding keep
keep_invariant kept [] hs h k = (h, k)
keep_invariant kept (w ∷ ws) hs h k =
    keep_invariant (place false w kept) ws hs.1 (place-NoSlash w kept hs.0 h) (place-Kept w kept k)

prefix-append : (s t p : Text) → has_prefix s p ≡ true → has_prefix (s ++ t) p ≡ true
prefix-append s t [] h = refl
prefix-append [] t (c ∷ cs) h = cc
prefix-append (d ∷ ds) t (c ∷ cs) h = ground (arith, prefix-append ds t cs)

joined-bottom : (ws : List Text) → bottom ws ≡ some dots → has_prefix (joined ws) dots ≡ true
joined-bottom [] h = cc
joined-bottom (w ∷ []) h =
    let e : w ≡ dots = cc in subst (λ t. has_prefix t dots ≡ true) (sym e) (refl)
joined-bottom (w ∷ v ∷ vs) h =
    prefix-append (joined (v ∷ vs)) (b'/' ∷ w) dots (joined-bottom (v ∷ vs) h)

elements_single : (w : Text) → NoSlash w → elements w ≡ w ∷ []
elements_single [] h = refl
elements_single (c ∷ cs) h = ground (arith, elements_single cs)

join_first-append :
    (c : ℕ) (v : Text) (vs ws : List Text)
    → join_first c ((v ∷ vs) ++ ws) ≡ join_first c (v ∷ vs) ++ ws
join_first-append c v vs ws = refl

elements_some : (s : Text) → (v : Text) × (vs : List Text) × (elements s ≡ v ∷ vs)
elements_some [] = ([], [], refl)
elements_some (c ∷ cs) =
    let (v, vs, e) = elements_some cs in
    elim (Bool-cases (c == b'/')) [
      | inl q ↦ rw q ([], elements cs, refl)
      | inr o ↦ rw o (c ∷ v, vs, ap (join_first c) e)
    ]

elements-append : (s w : Text) → elements (s ++ b'/' ∷ w) ≡ elements s ++ elements w
elements-append [] w = refl
elements-append (c ∷ cs) w =
    let (v, vs, e) = elements_some cs in
    elim (Bool-cases (c == b'/')) [
      | inl q ↦ rw q (ap (λ t. [] ∷ t) (elements-append cs w))
      | inr o ↦ rw o (
          ap (join_first c) (elements-append cs w)
          ∙ ap (λ t. join_first c (t ++ elements w)) e
          ∙ ap (λ t. join_first c t ++ elements w) (sym e))
    ]

All-both : (xs ys : List Text) → All NotDots xs → All NotDots ys → All NotDots (xs ++ ys)
All-both [] ys h k = k
All-both (x ∷ xs) ys h k = (h.0, All-both xs ys h.1 k)

joined-NotDots :
    (ws : List Text) → All NoSlash ws → All NotDots ws → All NotDots (elements (joined ws))
joined-NotDots [] h k = (refl, tt)
joined-NotDots (w ∷ []) h k = rw (elements_single w h.0) k
joined-NotDots (w ∷ v ∷ vs) h k =
    rw (elements-append (joined (v ∷ vs)) w, elements_single w h.0)
      (All-both (elements (joined (v ∷ vs))) (w ∷ []) (joined-NotDots (v ∷ vs) h.1 k.1) (k.0, tt))

or_dot-NotDots : (s : Text) → All NotDots (elements s) → All NotDots (elements (or_dot s))
or_dot-NotDots [] h = (refl, tt)
or_dot-NotDots (c ∷ cs) h = h

or_dot-prefix : (s : Text) → has_prefix s dots ≡ true → has_prefix (or_dot s) dots ≡ true
or_dot-prefix [] h = cc
or_dot-prefix (c ∷ cs) h = h

-- A relative path that cleaning does not begin with a parent element.
relative-NotDots :
    (s : Text) → escapes (clean_relative s) ≡ false → All NotDots (elements (clean_relative s))
unfolding clean_relative
relative-NotDots s e =
    let ws = elements s in
    let kept = keep false [] ws in
    let (ns, k) = keep_invariant [] ws (elements-NoSlash s) tt (inl tt) in
    elim k [
      | inl good ↦ or_dot-NotDots (joined kept) (joined-NotDots kept ns good)
      | inr bad ↦
          let starts = or_dot-prefix (joined kept) (joined-bottom kept bad) in
          ground (arith, starts)
    ]

clean_cases :
    (c : ℕ) (cs : Text)
    → (escapes (clean (c ∷ cs)) ≡ true) ⊎ (clean (c ∷ cs) ≡ clean_relative (c ∷ cs))
unfolding clean
clean_cases c cs = elim (Bool-cases (c == b'/')) [
  | inl q ↦ rw (clean, q) (inl refl)
  | inr o ↦ rw (clean, o) (inr refl)
]

clean_dot : All NotDots (elements (clean []))
unfolding clean
clean_dot = (refl, tt)

-- A path whose cleaned form begins with neither a parent element nor a slash has no parent element
-- in that form.
pub clean-NotDots : (s : Text) → escapes (clean s) ≡ false → All NotDots (elements (clean s))
clean-NotDots [] e = clean_dot
clean-NotDots (c ∷ cs) e = elim (clean_cases c cs) [
  | inl q ↦ ground (arith, q)
  | inr same ↦ rw same (relative-NotDots (c ∷ cs) (rw same at e))
]

-- A path in the archive, below its directory.
abbrev pub InArchive : Text → Type 0
InArchive p = (inner : Text) × (p ≡ build_files_dir ++ b'/' ∷ inner) × All NotDots (elements inner)

abbrev pub Accepted : List Text → Outcome Text (List Text) → Type 0
Accepted ss (err s) = Unit {0}
Accepted ss (ok ps) = (length ps ≡ length ss) × All InArchive ps

pub src_paths-Accepted : (ss : List Text) → Accepted ss (src_paths ss)
unfolding src_paths
src_paths-Accepted [] = (refl, tt)
src_paths-Accepted (s ∷ ss) = elim (Bool-cases (escapes (clean s))) [
  | inl e ↦ rw (src_paths, e) tt
  | inr e ↦
      let later = src_paths-Accepted ss in
      elim (Outcome-cases (src_paths ss)) [
        | inl (x, r) ↦ rw (src_paths, e, r) tt
        | inr (qs, r) ↦
            let (same, inside) = subst (Accepted ss) r later in
            rw (src_paths, e, r)
              (ap (λ n. suc n) same, ((clean s, refl, clean-NotDots s e), inside))
      ]
]
