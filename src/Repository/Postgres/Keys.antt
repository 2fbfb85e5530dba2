-- ===== src/Repository/Postgres/Keys.antt =====
-- The idempotency keys of internal/repository/postgres/store.go: `INSERT ... ON CONFLICT DO
-- NOTHING`, whose loser sees no affected row, and the read by the primary key.
use mathlib.Core.Path.{subst}
use mathlib.Core.List.{Perm, perm-replicate}
use mathlib.Core.Nat.{zero, suc}
use text.Mathlib.TextEquality.{IsScalar-prop}
use review_workflow.Base.{
  none, ◌≡◌, ◌≢◌, refl, ap, ◌∙◌, Bool, true, ◌&&◌, Bool-cases, inl, inr, ◌==◌, eq_iff, arith, List,
  [], ◌∷◌, All,
}
use review_workflow.Base.Int.{ℤ}
use review_workflow.Domain.{IdempotencyRecord}
use review_workflow.Application.Errors.{Result, ok, err, other}
use review_workflow.Repository.Memory.{select}
use review_workflow.Repository.Pool.{Pool, insert_idempotency}
use review_workflow.Repository.Pool.Database.{Tables, IsDatabase, Executed, Selected, SameKey}
use review_workflow.Repository.Postgres.{affected, first_row, get_idempotency, create_idempotency}

IdempotencyRecord-set : IsSet IdempotencyRecord
IdempotencyRecord-set = hlevel IsScalar-prop

abbrev with_key : IdempotencyRecord → IdempotencyRecord → Bool
with_key rec row = row.scope == rec.scope && row.key == rec.key

with_key-absent :
    (rec row : IdempotencyRecord) (rows : List IdempotencyRecord)
    → SameKey row rec
    → All (λ q. SameKey row q → ⊥) rows
    → select (with_key rec) rows ≡ []
unfolding select
with_key-absent rec row [] same absent = refl
with_key-absent rec row (q ∷ rows) same absent = elim (Bool-cases (with_key rec q)) [
  | inl e ↦ absurd (absent.0 (ground (arith, eq_iff q.scope rec.scope, eq_iff q.key rec.key)))
  | inr e ↦ rw e (with_key-absent rec row rows same absent.1)
]

with_key-first :
    (rec row : IdempotencyRecord) (rows : List IdempotencyRecord)
    → SameKey row rec
    → All (λ q. SameKey row q → ⊥) rows
    → select (with_key rec) (row ∷ rows) ≡ row ∷ []
unfolding select
with_key-first rec row rows same absent =
    let e : with_key rec row ≡ true =
      ground (arith, eq_iff row.scope rec.scope, eq_iff row.key rec.key) in
    rw (e, with_key-absent rec row rows same absent) refl

module _ {D : Type 0} (pool : Pool D) (tables : D → Tables) where
  abbrev pub put : IdempotencyRecord → IdempotencyRecord
  put rec = record rec { created_at = pool.bind_time rec.created_at }

  -- What an accepted key has done.
  inserted :
      (row : IdempotencyRecord) (d d' : D) (result : Result ℤ)
      → Executed (insert_idempotency row) (tables d) result (tables d')
      → affected result ≡ ok tt
      → ((tables d').idempotency ≡ row ∷ (tables d).idempotency)
        × All (λ q. SameKey row q → ⊥) (tables d).idempotency
  inserted row d d' (err e) h accepted = cc
  inserted row d d' (ok n) (inl (count, same, present)) accepted =
      absurd (cc (ap (λ m. affected (ok m)) count, accepted))
  inserted row d d' (ok n) (inr (count, changed, absent)) accepted =
      (ap (λ t. t.idempotency) changed, absent)

  found-first :
      (rec : IdempotencyRecord) (rows found : List IdempotencyRecord) (row : IdempotencyRecord)
      → select (with_key rec) rows ≡ row ∷ []
      → Selected (record { where_ = with_key rec; order_by = none; limit = none }) rows (ok found)
      → found ≡ row ∷ []
  found-first rec rows found row only (all, perm, ordered, e) =
      e ∙ (perm-replicate IdempotencyRecord-set (suc zero) row).0 (subst (Perm all) only perm)

  -- What a read of the key gives.
  abbrev pub Gives : IdempotencyRecord → Result IdempotencyRecord → Type 0
  Gives row (ok found) = found ≡ row
  Gives row (err e) = e.kind ≡ other

  first-Gives :
      (rec : IdempotencyRecord) (rows : List IdempotencyRecord) (row : IdempotencyRecord)
      (result : Result (List IdempotencyRecord))
      → select (with_key rec) rows ≡ row ∷ []
      → Selected (record { where_ = with_key rec; order_by = none; limit = none }) rows result
      → Gives row (first_row result)
  first-Gives rec rows row (err e) only failed = failed
  first-Gives rec rows row (ok found) only h = rw (found-first rec rows found row only h) refl

  unclaimed :
      (row row' : IdempotencyRecord) (rows : List IdempotencyRecord) (d : D) (result : Result ℤ)
      (d' : D)
      → SameKey row' row
      → (tables d).idempotency ≡ row ∷ rows
      → Executed (insert_idempotency row') (tables d) result (tables d')
      → affected result ≢ ok tt
  unclaimed row row' rows d result d' same is h accepted =
      let (_, absent) = inserted row' d d' result h accepted in
      (subst (All (λ q. SameKey row' q → ⊥)) is absent).0 same

  -- The first to store an idempotency key owns it: while the keys stay as its insertion left them,
  -- a read of the key gives its record, with the time as the driver passes it, or fails for another
  -- reason than a missing row, and no other record is accepted under that scope and key. The pool
  -- behaves as documented.
  pub create_idempotency-owns :
      IsDatabase pool tables
      → (rec rec' : IdempotencyRecord) (d t : D) → SameKey rec' rec
      → (create_idempotency pool rec d).0 ≡ ok tt
      → (tables t).idempotency ≡ (tables (create_idempotency pool rec d).1).idempotency
      → Gives (put rec) (get_idempotency pool rec.scope rec.key t).0
        × ((create_idempotency pool rec' t).0 ≢ ok tt)
  unfolding create_idempotency get_idempotency
  create_idempotency-owns db rec rec' d t same accepted kept =
      let (changed, absent) =
        inserted (put rec) d _ _ (db.executes (insert_idempotency (put rec)) d) accepted in
      let is = kept ∙ changed in
      let only =
        ap (select (with_key rec)) is
        ∙ with_key-first rec (put rec) (tables d).idempotency (refl, refl) absent in
      (
        first-Gives rec (tables t).idempotency (put rec) _ only (db.finds_idempotency _ t).0,
        unclaimed (put rec) (put rec') (tables d).idempotency t _ _ same is
            (db.executes (insert_idempotency (put rec')) t),
      )
