-- ===== src/Scheduler/Best.antt =====
-- LeastLoadedScheduler: the host that is chosen is a best one among those that fit.
use wrenn.Prelude.{
  ℕ, ◌==◌, ◌≡◌, ◌≢◌, ◌⊎◌, inl, inr, refl, sym, ap, subst, ◌∙◌, Bool, true, false, List, [], ◌∷◌,
  Option, none, some, length, All, Outcome, err, ok, arith, Bool-cases,
}
use wrenn.Volumes.{Ident}
use wrenn.Scheduler.{
  Floats, HostLoad, may_use, CapacityError, score, fits, eligible, best_of, chosen,
  select_least_loaded,
}

abbrev pub Member : HostLoad → List HostLoad → Type 0
Member h [] = ⊥
Member h (row ∷ rows) = (h ≡ row) ⊎ Member h rows

true_ne_false : true ≢ false
true_ne_false e = cc

-- Comparison of floating-point numbers that are not NaN.
pub record IsOrdered {ℓ} {F : Type ℓ} (fl : Floats F) : Type ℓ where
  pub asymmetric : (a b : F) → fl.less a b ≡ true → fl.less b a ≡ false
  pub not_less_trans : (a b c : F) → fl.less a b ≡ false → fl.less b c ≡ false → fl.less a c ≡ false

module _ {ℓ} {F : Type ℓ} (fl : Floats F) (memory disk : ℕ) where
  abbrev pub Fits : HostLoad → Type 0
  Fits row = fits fl memory disk row ≡ true

  -- No host that fits has a greater score.
  abbrev pub IsTop : HostLoad → HostLoad → Type 0
  IsTop h row = Fits row → fl.less (score fl h) (score fl row) ≡ false

  module _ (ordered : IsOrdered fl) where
    not_less_self : (a : F) → fl.less a a ≡ false
    not_less_self a = elim (Bool-cases (fl.less a a)) [
      | inl e ↦ absurd (true_ne_false (sym e ∙ ordered.asymmetric a a e))
      | inr e ↦ e
    ]

    record Found (b : Option HostLoad) (rows : List HostLoad) (h : HostLoad) : Type 0 where
      from : (b ≡ some h) ⊎ (Member h rows × Fits h)
      not_under : (c : HostLoad) → b ≡ some c → fl.less (score fl h) (score fl c) ≡ false
      top : All (IsTop h) rows

    some_injective : {a b : HostLoad} → some a ≡ some b → a ≡ b
    some_injective e = cc

    none_ne_some : {a : HostLoad} → none ≢ some a
    none_ne_some e = cc

    best_some :
        (b : HostLoad) (rows : List HostLoad)
        → (h : HostLoad) × (best_of fl memory disk (some b) rows ≡ some h) × Found (some b) rows h
    unfolding best_of
    best_some b [] = (
      b,
      refl,
      record {
        from = inl refl;
        not_under = λ c e.
            ap (λ x. fl.less (score fl b) (score fl x)) (sym (some_injective e))
            ∙ not_less_self (score fl b);
        top = tt;
      },
    )
    best_some b (row ∷ rows) = elim (Bool-cases (fits fl memory disk row)) [
      | inl fit ↦ elim (Bool-cases (fl.less (score fl b) (score fl row))) [
        | inl less ↦
            let (h, same, found) = best_some row rows in
            let top_row = found.not_under row refl in
            (
              h,
              rw (best_of, fit, less) same,
              record {
                from = elim found.from [
                  | inl e ↦ inr (inl (sym (some_injective e)), subst Fits (some_injective e) fit)
                  | inr (there, fit_h) ↦ inr (inr there, fit_h)
                ];
                not_under = λ c e.
                    ap (λ x. fl.less (score fl h) (score fl x)) (sym (some_injective e))
                    ∙ ordered.not_less_trans (score fl h) (score fl row) (score fl b) top_row
                        (ordered.asymmetric (score fl b) (score fl row) less);
                top = (λ fit_row. top_row, found.top);
              },
            )
        | inr not_less ↦
            let (h, same, found) = best_some b rows in
            (
              h,
              rw (best_of, fit, not_less) same,
              record {
                from = elim found.from [
                  | inl e ↦ inl e
                  | inr (there, fit_h) ↦ inr (inr there, fit_h)
                ];
                not_under = found.not_under;
                top = (
                  λ fit_row.
                      ordered.not_less_trans (score fl h) (score fl b) (score fl row)
                        (found.not_under b refl) not_less,
                  found.top,
                );
              },
            )
      ]
      | inr unfit ↦
          let (h, same, found) = best_some b rows in
          (
            h,
            rw (best_of, unfit) same,
            record {
              from = elim found.from [
                | inl e ↦ inl e
                | inr (there, fit_h) ↦ inr (inr there, fit_h)
              ];
              not_under = found.not_under;
              top = (λ fit_row. absurd (true_ne_false (sym fit_row ∙ unfit)), found.top);
            },
          )
    ]

    -- What the loop ends with.
    abbrev Ends : List HostLoad → Option HostLoad → Type 0
    Ends rows none = All (λ row. fits fl memory disk row ≡ false) rows
    Ends rows (some h) = Member h rows × Fits h × All (IsTop h) rows

    passes :
        (row : HostLoad) (rows : List HostLoad)
        → fits fl memory disk row ≡ false
        → (r : Option HostLoad) → Ends rows r
        → Ends (row ∷ rows) r
    passes row rows unfit none h = (unfit, h)
    passes row rows unfit (some x) (there, fit_x, top) =
        (inr there, fit_x, ((λ f. absurd (true_ne_false (sym f ∙ unfit))), top))

    best_none : (rows : List HostLoad) → Ends rows (best_of fl memory disk none rows)
    unfolding best_of
    best_none [] = tt
    best_none (row ∷ rows) = elim (Bool-cases (fits fl memory disk row)) [
      | inl fit ↦
          let (h, same, found) = best_some row rows in
          let (there, fit_h) : Member h (row ∷ rows) × Fits h = elim found.from [
            | inl e ↦ (inl (sym (some_injective e)), subst Fits (some_injective e) fit)
            | inr (there, fit_h) ↦ (inr there, fit_h)
          ] in
          rw (best_of, fit, same) (there, fit_h, ((λ f. found.not_under row refl), found.top))
      | inr unfit ↦
          rw (best_of, unfit)
            (passes row rows unfit (best_of fl memory disk none rows) (best_none rows))
    ]

    module _ (is_byoc : Bool) (team : Ident) where
      -- A host that the team may use.
      abbrev pub Usable : HostLoad → Type 0
      Usable row = may_use is_byoc team row.kind row.team_id ≡ true

      Member-eligible :
          (h : HostLoad) (rows : List HostLoad)
          → Member h (eligible fl is_byoc team rows)
          → Member h rows × Usable h
      Member-eligible h [] there = absurd there
      Member-eligible h (row ∷ rows) there =
          elim (Bool-cases (may_use is_byoc team row.kind row.team_id)) [
            | inl e ↦ elim (rw (eligible, e) at there) [
              | inl same ↦ (inl same, subst Usable (sym same) e)
              | inr later ↦ let (m, u) = Member-eligible h rows later in (inr m, u)
            ]
            | inr e ↦ let (m, u) = Member-eligible h rows (rw (eligible, e) at there) in (inr m, u)
          ]

      All-eligible :
          (P : HostLoad → Type 0) (rows : List HostLoad)
          → All P (eligible fl is_byoc team rows)
          → All (λ row. Usable row → P row) rows
      All-eligible P [] h = tt
      All-eligible P (row ∷ rows) h =
          elim (Bool-cases (may_use is_byoc team row.kind row.team_id)) [
            | inl e ↦
                let split : P row × All P (eligible fl is_byoc team rows) = rw (eligible, e) at h in
                ((λ u. split.0), All-eligible P rows split.1)
            | inr e ↦ (
              (λ u. absurd (true_ne_false (sym u ∙ e))),
              All-eligible P rows (rw (eligible, e) at h),
            )
          ]

      -- What a choice among the rows of the query may be.
      abbrev pub Chooses : List HostLoad → Outcome CapacityError HostLoad → Type 0
      Chooses rows (ok h) =
          Member h rows × Usable h × Fits h × All (λ row. Usable row → IsTop h row) rows
      Chooses rows (err e) = All (λ row. Usable row → fits fl memory disk row ≡ false) rows

      Ends-Chooses :
          (rows : List HostLoad) (r : Option HostLoad)
          → Ends (eligible fl is_byoc team rows) r
          → Chooses rows (chosen fl r)
      Ends-Chooses rows none h = All-eligible (λ row. fits fl memory disk row ≡ false) rows h
      Ends-Chooses rows (some x) (there, fit_x, top) =
          let (m, u) = Member-eligible x rows there in
          (m, u, fit_x, All-eligible (IsTop x) rows top)

      nothing_left :
          (candidates : List HostLoad)
          → (length candidates == 0) ≡ true
          → All (λ row. fits fl memory disk row ≡ false) candidates
      nothing_left [] h = tt
      nothing_left (row ∷ rows) h = absurd (ground arith)

      -- The host that is chosen is one of the rows, one that the team may use and that has room, and
      -- no other such host has a greater score; a refusal means that none of them has room.
      pub select_least_loaded-Chooses :
          (rows : List HostLoad)
          → Chooses rows (select_least_loaded fl (some rows) is_byoc team memory disk)
      unfolding select_least_loaded
      select_least_loaded-Chooses rows =
          let candidates = eligible fl is_byoc team rows in
          elim (Bool-cases (length candidates == 0)) [
            | inl e ↦
                rw (select_least_loaded, e)
                  (All-eligible (λ row. fits fl memory disk row ≡ false) rows
                    (nothing_left candidates e))
            | inr e ↦
                rw (select_least_loaded, e)
                  (Ends-Chooses rows (best_of fl memory disk none candidates)
                    (best_none candidates))
          ]
