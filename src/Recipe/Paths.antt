-- ===== src/Recipe/Paths.antt =====
-- Go's path.Clean, by which a COPY step judges its sources (internal/recipe/executor.go).
use wrenn.Prelude.{
  ℕ, Bool, true, false, ◌||◌, List, [], ◌∷◌, ◌++◌, ◌==◌, if◌then◌else◌, Text, text_eq, codes,
  is_nil,
}

abbrev pub dots : Text
dots = codes ".."

abbrev pub join_first : ℕ → List Text → List Text
join_first c [] = (c ∷ []) ∷ []
join_first c (w ∷ ws) = (c ∷ w) ∷ ws

-- The elements of a path: the texts between the slashes.
abbrev pub elements : Text → List Text
elements [] = [] ∷ []
elements (c ∷ cs) = let rest = elements cs in if c == b'/' then [] ∷ rest else join_first c rest

-- A parent element takes the last name away; where there is none it is kept, or dropped at the root.
abbrev pub ascend : Bool → List Text → List Text
ascend true [] = []
ascend false [] = dots ∷ []
ascend rooted (w ∷ ws) = if text_eq w dots then dots ∷ w ∷ ws else ws

abbrev pub place : Bool → Text → List Text → List Text
place rooted w kept =
    if is_nil w || text_eq w (codes ".")
    then kept
    else if text_eq w dots
    then ascend rooted kept
    else w ∷ kept

-- The elements that are kept, the last first.
unfoldable pub keep : Bool → List Text → List Text → List Text
keep rooted kept [] = kept
keep rooted kept (w ∷ ws) = keep rooted (place rooted w kept) ws

-- Elements with slashes between them, the last first.
abbrev pub joined : List Text → Text
joined [] = []
joined (w ∷ []) = w
joined (w ∷ v ∷ vs) = joined (v ∷ vs) ++ b'/' ∷ w

abbrev pub or_dot : Text → Text
or_dot [] = codes "."
or_dot (c ∷ cs) = c ∷ cs

unfoldable pub clean_relative : Text → Text
unfolding keep
clean_relative s = or_dot (joined (keep false [] (elements s)))

unfoldable pub clean : Text → Text
unfolding keep
clean [] = codes "."
clean (c ∷ cs) =
    if c == b'/' then b'/' ∷ joined (keep true [] (elements cs)) else clean_relative (c ∷ cs)
