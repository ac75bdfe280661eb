-- ===== src/Volumes/Deleted.antt =====
-- What the deletion of a volume does on each path.
use wrenn.Prelude.{
  ◌≡◌, refl, sym, ap, ◌∙◌, inl, inr, Bool, true, false, Option, none, some, text_eq, text_eq_refl,
  Outcome, Outcome-cases, is_ok, err, ok, arith, Option-cases,
}
use wrenn.Volumes.{Ident, Volume, Db, DbError, no_rows, failed, unique_violation, deleting}
use wrenn.Volumes.Statements.{
  begin_volume_delete, abort_volume_delete, delete_volume_row, get_volume_by_team, is_deletable,
  mark_deleting,
}
use wrenn.Volumes.Service.{
  FileRemoval, HostCalls, host_found, host_missing, lookup_failed, removed, not_found,
  removal_failed, delete, delete_claimed, drop, after_claim,
}
use wrenn.Volumes.Untouched.{row_of}

-- A deletion touches no other row.
begin_keeps :
    (id team k : Ident) (d : Db)
    → text_eq k id ≡ false
    → row_of (begin_volume_delete id team d).1 k ≡ row_of d k
unfolding begin_volume_delete
begin_keeps id team k d h = ground arith

claimed_keeps :
    (id team k : Ident) (calls : HostCalls) (host : Option Ident) (d : Db)
    → text_eq k id ≡ false
    → row_of (delete_claimed id team calls host d).1 k ≡ row_of d k
unfolding delete_volume_row abort_volume_delete
claimed_keeps id team k calls none d h = ground arith
claimed_keeps id team k calls (some x) d h = ground arith

after_claim_keeps :
    (id team k : Ident) (calls : HostCalls) (r : Outcome DbError Volume) (d : Db)
    → text_eq k id ≡ false
    → row_of (after_claim id team calls (r, d)).1 k ≡ row_of d k
unfolding get_volume_by_team
after_claim_keeps id team k calls (ok v) d h = claimed_keeps id team k calls v.host_id d h
after_claim_keeps id team k calls (err no_rows) d h = ground arith
after_claim_keeps id team k calls (err unique_violation) d h = refl
after_claim_keeps id team k calls (err failed) d h = refl

pub delete_keeps :
    (id team k : Ident) (calls : HostCalls) (d : Db)
    → text_eq k id ≡ false
    → row_of (delete id team calls d).1 k ≡ row_of d k
unfolding delete
delete_keeps id team k calls d h =
    let b = begin_volume_delete id team d in
    after_claim_keeps id team k calls b.0 b.1 h ∙ begin_keeps id team k d h

begin_row :
    (id team : Ident) (d : Db) (v : Volume)
    → (begin_volume_delete id team d).0 ≡ ok v
    → (w : Volume) × (row_of d id ≡ some w)
      × (is_deletable team w ≡ true)
      × (v ≡ mark_deleting (d.turn d.calls).now w)
      × (row_of (begin_volume_delete id team d).1 id ≡ some v)
unfolding begin_volume_delete
begin_row id team d v h = elim (Option-cases (row_of d id)) [
  | inl e ↦ absurd (ground arith)
  | inr (w, e) ↦
      let claimed : is_deletable team w ≡ true = ground arith in
      (w, e, claimed, ground arith, ground (arith, text_eq_refl id))
]

-- The backing file of a volume: it never had one, its host is gone, or its host removed it or no
-- longer had it.
abbrev pub has_removed : FileRemoval → Bool
has_removed removed = true
has_removed not_found = true
has_removed removal_failed = false

abbrev pub is_file_gone : HostCalls → Option Ident → Bool
is_file_gone calls none = true
is_file_gone calls (some host) = elim calls.lookup [
  | host_missing ↦ true
  | lookup_failed ↦ false
  | host_found ↦ has_removed calls.removal
]

drop_row_gone :
    (id team : Ident) (d : Db) (v : Volume)
    → row_of d id ≡ some v
    → text_eq v.team_id team ≡ true
    → v.status ≡ deleting
    → (drop id team d).0 ≡ ok tt
    → row_of (drop id team d).1 id ≡ none
unfolding delete_volume_row
drop_row_gone id team d v at own status h = let here = text_eq_refl id in ground arith

claimed_gone :
    (id team : Ident) (calls : HostCalls) (host : Option Ident) (d : Db) (v : Volume)
    → row_of d id ≡ some v
    → text_eq v.team_id team ≡ true
    → v.status ≡ deleting
    → (delete_claimed id team calls host d).0 ≡ ok tt
    → (row_of (delete_claimed id team calls host d).1 id ≡ none) × (is_file_gone calls host ≡ true)
unfolding delete_volume_row abort_volume_delete
claimed_gone id team calls none d v at own status h =
    (drop_row_gone id team d v at own status h, refl)
claimed_gone id team calls (some x) d v at own status h =
    let here = text_eq_refl id in (ground arith, ground arith)

not_claimed :
    (id team : Ident) (calls : HostCalls) (x : DbError) (d : Db)
    → (after_claim id team calls (err x, d)).0 ≡ ok tt
    → ⊥
not_claimed id team calls no_rows d h = ground arith
not_claimed id team calls unique_violation d h = ground arith
not_claimed id team calls failed d h = ground arith

-- Whatever the database does: a deletion that succeeds was of a volume of the team that was
-- detached or already being deleted; its row is gone, and so is its backing file.
pub delete-Deletes :
    (id team : Ident) (calls : HostCalls) (d : Db)
    → (delete id team calls d).0 ≡ ok tt
    → (v : Volume) × (row_of d id ≡ some v)
      × (is_deletable team v ≡ true)
      × (is_file_gone calls v.host_id ≡ true)
      × (row_of (delete id team calls d).1 id ≡ none)
unfolding delete
delete-Deletes id team calls d h = elim (Outcome-cases (begin_volume_delete id team d).0) [
  | inl (x, e) ↦ absurd (not_claimed id team calls x (begin_volume_delete id team d).1 (rw e at h))
  | inr (v, e) ↦
      let (w, at, claimed, same, begun) = begin_row id team d v e in
      let own : text_eq v.team_id team ≡ true = rw same (ground arith) in
      let (gone, file) =
        claimed_gone id team calls v.host_id (begin_volume_delete id team d).1 v begun own
          (ap (λ u. u.status) same) (rw e at h) in
      (w, at, claimed, ap (is_file_gone calls) (ap (λ u. u.host_id) (sym same)) ∙ file, rw e gone)
]

-- Whatever the database does: a deletion of a volume that a capsule holds fails, and the row stays.
pub delete_held :
    (id team : Ident) (calls : HostCalls) (d : Db) (v : Volume)
    → row_of d id ≡ some v
    → is_deletable team v ≡ false
    → (is_ok (delete id team calls d).0 ≡ false) × (row_of (delete id team calls d).1 id ≡ some v)
unfolding delete begin_volume_delete get_volume_by_team
delete_held id team calls d v at h = let here = text_eq_refl id in (ground arith, ground arith)
