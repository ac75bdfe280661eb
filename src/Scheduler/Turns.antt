-- ===== src/Scheduler/Turns.antt =====
-- RoundRobinScheduler: every candidate gets its turn.
use native.Mathlib.Nat.{div-add-mod', mul-add-mod_self_right, mod-eq_of_lt, mod-lt}
use wrenn.Prelude.{
  ℕ, zero, suc, ◌+◌, ◌-◌, ◌*◌, ◌/◌, ◌%◌, ◌≤◌, ◌<◌, ◌==◌, ◌≡◌, inl, inr, refl, sym, ap, ◌∙◌, Bool,
  true, false, ltb, List, [], ◌∷◌, Option, none, some, length, get_elem?, Outcome, err, ok, arith,
  Bool-cases,
}
use wrenn.Volumes.{Ident}
use wrenn.Scheduler.{
  ActiveHost, CapacityError, panics, candidates_of, at_turn, at_index, index_of, int64_half,
  int64_range, select_round_robin,
}

-- The answers to a number of calls in a row, over hosts that do not change.
unfoldable pub answers :
    ℕ → List ActiveHost → Bool → Ident → ℕ → List (Outcome CapacityError ActiveHost)
unfolding select_round_robin
answers zero hosts is_byoc team turn = []
answers (suc k) hosts is_byoc team turn =
    let (answer, next) = select_round_robin (some hosts) is_byoc team turn in
    answer ∷ answers k hosts is_byoc team next

-- From any count, each residue is met within one round.
meets : (n c j : ℕ) → j < n → (i : ℕ) × (i < n) × ((c + i) % n ≡ j)
meets n c j below = elim (Bool-cases (ltb j (c % n))) [
  | inl later ↦
      let small : c % n < n = mod-lt c (omega arith) in
      let less : j < c % n = ground arith in
      let value : c + (j + n - c % n) ≡ (c / n + 1) * n + j =
        let split = div-add-mod' c n in
        let one_more : (c / n + 1) * n ≡ c / n * n + n = grind arith in
        omega (arith, split, one_more, small, less, below) in
      (
        j + n - c % n,
        omega arith,
        ap (λ m. m % n) value ∙ (mul-add-mod_self_right (c / n + 1) n j ∙ mod-eq_of_lt below),
      )
  | inr here ↦
      let less : c % n ≤ j = ground arith in
      let value : c + (j - c % n) ≡ c / n * n + j =
        let split = div-add-mod' c n in omega (arith, split, less) in
      (
        j - c % n,
        omega arith,
        ap (λ m. m % n) value ∙ (mul-add-mod_self_right (c / n) n j ∙ mod-eq_of_lt below),
      )
]

get_elem-below {ℓ} :
    {A : Type ℓ} (xs : List A) (i : ℕ) (x : A) → get_elem? xs i ≡ some x → i < length xs
get_elem-below [] i x h = absurd (ground arith)
get_elem-below (y ∷ ys) zero x h = omega arith
get_elem-below (y ∷ ys) (suc i) x h = let rest = get_elem-below ys i x h in omega (arith, rest)

get_elem-some {ℓ} :
    {A : Type ℓ} (xs : List A) (i : ℕ) → i < length xs → (x : A) × (get_elem? xs i ≡ some x)
get_elem-some [] i h = absurd (omega arith)
get_elem-some (y ∷ ys) zero h = (y, refl)
get_elem-some (y ∷ ys) (suc i) h = get_elem-some ys i (omega (arith, h))

module _ (hosts : List ActiveHost) (is_byoc : Bool) (team : Ident) where
  abbrev found : List ActiveHost
  found = candidates_of is_byoc team hosts

  -- One call with candidates takes the one at its turn and moves the counter on.
  takes :
      (turn : ℕ)
      → 0 < length found
      → turn < int64_half
      → (h : ActiveHost) × (get_elem? found (turn % length found) ≡ some h)
        × (select_round_robin (some hosts) is_byoc team turn ≡ (ok h, turn + 1))
  unfolding select_round_robin
  takes turn some_found small =
      let (h, at) = get_elem-some found (turn % length found) (mod-lt turn some_found) in
      let not_empty : (length found == 0) ≡ false = ground arith in
      let positive : ltb turn int64_half ≡ true = ground arith in
      let next : (turn + 1) % int64_range ≡ turn + 1 = mod-eq_of_lt (omega (arith, small)) in
      (
        h,
        at,
        rw (select_round_robin, not_empty, at_turn, index_of, positive, at_index, at, next) refl,
      )

  answers_at :
      (k i turn : ℕ)
      → 0 < length found
      → turn + k ≤ int64_half
      → i < k
      → get_elem? (answers k hosts is_byoc team turn) i
        ≡ some (select_round_robin (some hosts) is_byoc team (turn + i)).0
  unfolding answers
  answers_at zero i turn some_found small below = absurd (omega arith)
  answers_at (suc k) zero turn some_found small below =
      ap (λ t. some (select_round_robin (some hosts) is_byoc team t).0) (omega arith)
  answers_at (suc k) (suc i) turn some_found small below =
      let (h, at, same) = takes turn some_found (omega (arith, small)) in
      let next : (select_round_robin (some hosts) is_byoc team turn).1 ≡ turn + 1 =
        ap (λ r. r.1) same in
      rw next (
        answers_at k i (turn + 1) some_found (omega (arith, small)) (omega (arith, below))
        ∙ ap (λ t. some (select_round_robin (some hosts) is_byoc team t).0) (omega arith))

  -- Over hosts that do not change, as many calls in a row as there are candidates choose each
  -- candidate at least once, from any count from which they do not take the int64 counter past its
  -- greatest value.
  pub round_robin_fair :
      (turn j : ℕ) (h : ActiveHost)
      → turn + length found ≤ int64_half
      → get_elem? found j ≡ some h
      → (i : ℕ) × (i < length found)
        × (get_elem? (answers (length found) hosts is_byoc team turn) i ≡ some (ok h))
  round_robin_fair turn j h room at =
      let below = get_elem-below found j h at in
      let some_found : 0 < length found = omega (arith, below) in
      let (i, small, met) = meets (length found) turn j below in
      let (x, at_x, same) = takes (turn + i) some_found (omega (arith, small, room)) in
      let same_host : some x ≡ some h = sym at_x ∙ (ap (get_elem? found) met ∙ at) in
      (
        i,
        small,
        answers_at (length found) i turn some_found room small
            ∙ (ap (λ r. some r.0) same ∙ ap (λ o. some (as_ok o)) same_host),
      )
    where
      as_ok : Option ActiveHost → Outcome CapacityError ActiveHost
      as_ok none = err panics
      as_ok (some x) = ok x
