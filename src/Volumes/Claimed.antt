-- ===== src/Volumes/Claimed.antt =====
-- What one claim does to the table, and what giving claims back does.
use wrenn.Prelude.{
  ℕ, ◌≡◌, refl, sym, ap, subst, ◌∙◌, inl, inr, Bool, true, false, ◌||◌, List, [], ◌∷◌, ◌++◌, Option,
  none, some, if◌then◌else◌, text_eq, text_eq→≡, text_eq_refl, err, ok, arith, Bool-cases,
  Option-cases,
}
use wrenn.Volumes.{status_code, Ident, Volume, Db, DbError, detached, attaching, is_status}
use wrenn.Volumes.Statements.{reserve_volume_for_attach, release_volume_reservation}
use wrenn.Volumes.Reserve.{reserved_of, ReservedVolume}
use wrenn.Volumes.Untouched.{reserve_keeps, is_reserved-snoc, release_keeps, row_of, is_reserved}
use wrenn.Volumes.{fine}
use wrenn.Volumes.Statements.{claim, unclaim}

-- Every call of the database that is still to come is answered.
abbrev pub IsFine : Db → Type 0
IsFine d = (n : ℕ) → (d.turn n).fault ≡ fine

-- A volume that is detached belongs to no capsule.
abbrev pub IsTidy : Option Volume → Type 0
IsTidy none = Unit {0}
IsTidy (some v) = v.status ≡ detached → v.sandbox_id ≡ none

abbrev pub IsAttaching : Option Volume → Type 0
IsAttaching none = ⊥
IsAttaching (some v) = v.status ≡ attaching

-- A row without the time of its last change.
abbrev pub untimed : Option Volume → Option Volume
untimed none = none
untimed (some v) = some (record v { last_updated = 0 })

abbrev pub given_back : Option Volume → Option Volume
given_back none = none
given_back (some v) = if is_status v.status attaching then some (unclaim 0 v) else some v

abbrev pub undone : Bool → Option Volume → Option Volume
undone b row = untimed (if b then given_back row else row)

some_injective : {v w : Volume} → some v ≡ some w → v ≡ w
some_injective e = cc

pub reserve_turn : (id : Ident) (d : Db) → (reserve_volume_for_attach id d).1.turn ≡ d.turn
unfolding reserve_volume_for_attach
reserve_turn id d = ground arith

pub release_turn : (id : Ident) (d : Db) → (release_volume_reservation id d).1.turn ≡ d.turn
unfolding release_volume_reservation
release_turn id d = ground arith

-- No volume that is missing is claimed.
pub reserve_missing :
    (id : Ident) (d : Db) (v : Volume)
    → (reserve_volume_for_attach id d).0 ≡ ok v
    → row_of d id ≡ none
    → ⊥
unfolding reserve_volume_for_attach
reserve_missing id d v h e = ground arith

-- A claim that is refused, with every call answered, changes no row.
pub reserve_refused :
    (id k : Ident) (d : Db) (x : DbError)
    → IsFine d
    → (reserve_volume_for_attach id d).0 ≡ err x
    → row_of (reserve_volume_for_attach id d).1 k ≡ row_of d k
unfolding reserve_volume_for_attach
reserve_refused id k d x h r = let answered = h d.calls in ground arith

-- A claim that succeeds finds a detached row, and changes just its status and its time.
pub reserve_row :
    (id : Ident) (d : Db) (v w : Volume)
    → (reserve_volume_for_attach id d).0 ≡ ok v
    → row_of d id ≡ some w
    → (w.status ≡ detached)
      × (row_of (reserve_volume_for_attach id d).1 id ≡ some (claim (d.turn d.calls).now w))
unfolding reserve_volume_for_attach
reserve_row id d v w h at = (ground arith, ground (arith, text_eq_refl id))

release_here :
    (id : Ident) (b : Bool) (d : Db)
    → IsFine d
    → undone b (row_of (release_volume_reservation id d).1 id) ≡ undone true (row_of d id)
unfolding release_volume_reservation
release_here id b d h =
    let answered = h d.calls in
    let here = text_eq_refl id in
    elim (Option-cases (row_of d id)) [
      | inl e ↦ ground arith
      | inr (v, e) ↦ elim (Bool-cases (is_status v.status attaching)) [
        | inl a ↦ ground arith
        | inr a ↦ ground arith
      ]
    ]

pub release_undone :
    (id k : Ident) (b : Bool) (d : Db)
    → IsFine d
    → undone b (row_of (release_volume_reservation id d).1 k)
      ≡ undone (text_eq k id || b) (row_of d k)
release_undone id k b d h = elim (Bool-cases (text_eq k id)) [
  | inl e ↦ rw e (
      subst
        (λ i. undone b (row_of (release_volume_reservation id d).1 i) ≡ undone true (row_of d i))
        (sym (text_eq→≡ k id e)) (release_here id b d h))
  | inr e ↦ rw e (ap (undone b) (release_keeps id k d e))
]

pub reserve-IsAttaching :
    (id : Ident) (d : Db) (v : Volume)
    → (reserve_volume_for_attach id d).0 ≡ ok v
    → IsAttaching (row_of (reserve_volume_for_attach id d).1 id)
reserve-IsAttaching id d v h = elim (Option-cases (row_of d id)) [
  | inl e ↦ absurd (reserve_missing id d v h e)
  | inr (w, e) ↦ rw (reserve_row id d v w h e).1 refl
]

pub IsAttaching-IsTidy : (row : Option Volume) → IsAttaching row → IsTidy row
IsAttaching-IsTidy none h = absurd h
IsAttaching-IsTidy (some v) h =
    λ was. let codes_agree : ◌≡◌ {A = ℕ} 0 1 = ap status_code (sym was ∙ h) in absurd (omega arith)

pub ||-false : (b : Bool) → (b || false) ≡ b
||-false true = refl
||-false false = refl

-- The volumes claimed so far stay attaching when one more is claimed, and so is that one.
pub claim-IsAttaching :
    (team : Ident) (reserved : List ReservedVolume) (d : Db) (vol v : Volume)
    → (reserve_volume_for_attach vol.id d).0 ≡ ok v
    → ((k : Ident) → is_reserved k reserved ≡ true → IsAttaching (row_of d k))
    → (k : Ident) → is_reserved k (reserved ++ reserved_of team vol ∷ []) ≡ true
    → IsAttaching (row_of (reserve_volume_for_attach vol.id d).1 k)
claim-IsAttaching team reserved d vol v r held k among = elim (Bool-cases (text_eq k vol.id)) [
  | inl e ↦
      subst (λ i. IsAttaching (row_of (reserve_volume_for_attach vol.id d).1 i))
        (sym (text_eq→≡ k vol.id e)) (reserve-IsAttaching vol.id d v r)
  | inr e ↦
      let before : is_reserved k reserved ≡ true =
        sym (||-false (is_reserved k reserved))
        ∙ (ap (λ b. is_reserved k reserved || b) (sym e)
            ∙ (sym (is_reserved-snoc k reserved (reserved_of team vol)) ∙ among)) in
      subst IsAttaching (sym (reserve_keeps vol.id k d e)) (held k before)
]

pub ||-true : (b : Bool) → (b || true) ≡ true
||-true true = refl
||-true false = refl

pub not_attaching :
    (b : Bool) (w : Volume) → w.status ≡ detached → (b ≡ true → w.status ≡ attaching) → b ≡ false
not_attaching true w was h =
    let codes_agree : ◌≡◌ {A = ℕ} 0 1 = ap status_code (sym was ∙ h refl) in absurd (omega arith)
not_attaching false w was h = refl
