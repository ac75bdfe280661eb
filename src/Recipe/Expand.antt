-- ===== src/Recipe/Expand.antt =====
-- Placeholders in the value of an ENV step: expandEnv (internal/recipe/context.go).
use wrenn.Prelude.{
  ℕ, ◌≡◌, refl, Bool, true, false, ◌||◌, [], ◌∷◌, ◌++◌, ◌==◌, if◌then◌else◌, Text, arith, is_letter,
  is_digit,
}
use wrenn.Recipe.Context.{EnvVars, lookup, value_of}

abbrev is_var_char : ℕ → Bool
is_var_char c = is_letter c || is_digit c || c == b'_'

-- Where the scan of the text stands: outside, behind a dollar, in $NAME or in ${NAME}.
pub data Place : Type 0 where
  outside dollar : Place
  bare braced : Text → Place

value_at : EnvVars → Text → Text
value_at vars name = value_of (lookup name vars)

-- ReplaceAllStringFunc of $$, ${NAME} and $NAME, read from left to right. A ${ with no } after its
-- name is no placeholder, and is kept.
unfoldable pub expand_from : EnvVars → Place → Text → Text
unfolding value_at
expand_from vars outside [] = []
expand_from vars dollar [] = b'$' ∷ []
expand_from vars (bare name) [] = value_at vars name
expand_from vars (braced name) [] = b'$' ∷ b'{' ∷ name
expand_from vars outside (c ∷ cs) = elim (c == b'$') [
  | true ↦ expand_from vars dollar cs
  | false ↦ c ∷ expand_from vars outside cs
]
expand_from vars dollar (c ∷ cs) = elim (c == b'$') [
  | true ↦ b'$' ∷ expand_from vars outside cs
  | false ↦ elim (c == b'{') [
    | true ↦ expand_from vars (braced []) cs
    | false ↦ elim (is_var_char c) [
      | true ↦ expand_from vars (bare (c ∷ [])) cs
      | false ↦ b'$' ∷ c ∷ expand_from vars outside cs
    ]
  ]
]
expand_from vars (bare name) (c ∷ cs) = elim (is_var_char c) [
  | true ↦ expand_from vars (bare (name ++ c ∷ [])) cs
  | false ↦ elim (c == b'$') [
    | true ↦ value_at vars name ++ expand_from vars dollar cs
    | false ↦ value_at vars name ++ c ∷ expand_from vars outside cs
  ]
]
expand_from vars (braced name) (c ∷ cs) = elim (c == b'}') [
  | true ↦ value_at vars name ++ expand_from vars outside cs
  | false ↦ elim (is_var_char c) [
    | true ↦ expand_from vars (braced (name ++ c ∷ [])) cs
    | false ↦ elim (c == b'$') [
      | true ↦ b'$' ∷ b'{' ∷ (name ++ expand_from vars dollar cs)
      | false ↦ b'$' ∷ b'{' ∷ (name ++ c ∷ expand_from vars outside cs)
    ]
  ]
]

unfoldable pub expand_env : Text → EnvVars → Text
unfolding expand_from
expand_env s vars = expand_from vars outside s

-- Every dollar doubled.
abbrev pub double_dollars : Text → Text
double_dollars [] = []
double_dollars (c ∷ cs) =
    let rest = double_dollars cs in if c == b'$' then b'$' ∷ b'$' ∷ rest else c ∷ rest

-- A text whose dollars are doubled expands to the text, whatever the variables are.
pub expand_env-double_dollars : (s : Text) (vars : EnvVars) → expand_env (double_dollars s) vars ≡ s
unfolding expand_env expand_from
expand_env-double_dollars [] vars = refl
expand_env-double_dollars (c ∷ cs) vars = ground (arith, expand_env-double_dollars cs vars)
