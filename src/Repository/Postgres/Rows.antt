-- ===== src/Repository/Postgres/Rows.antt =====
-- The rows of the requests table, by their primary key.
use review_workflow.Base.{
  ◌≡◌, ◌≢◌, inl, inr, refl, sym, ◌∙◌, Bool, true, Bool-cases, String, ◌==◌, eq_iff, Option, none,
  some, arith, List, [], ◌∷◌, All, if◌then◌else◌,
}
use mathlib.Core.Option as Option
use review_workflow.Domain.{Request}
use review_workflow.Repository.Memory.{select}
use review_workflow.Repository.Pool.Database.{update_where}

-- The primary key.
abbrev pub IsUnique : List Request → Type 0
IsUnique [] = Unit
IsUnique (row ∷ rows) = All (λ q. q.id ≢ row.id) rows × IsUnique rows

unfoldable pub find : String → List Request → Option Request
find id [] = none
find id (row ∷ rows) = let later = find id rows in if row.id == id then some row else later

abbrev pub as_list : {A : Type 0} → Option A → List A
as_list none = []
as_list (some a) = a ∷ []

pub find_id : (id : String) (rows : List Request) (r : Request) → find id rows ≡ some r → r.id ≡ id
unfolding find
find_id id [] r e = cc
find_id id (row ∷ rows) r e = ground (arith, eq_iff row.id id, find_id id rows r)

select-apart :
    (p : Request → Bool) (id : String) (rows : List Request)
    → ((r : Request) → p r ≡ true → r.id ≡ id)
    → All (λ q. q.id ≢ id) rows
    → select p rows ≡ []
unfolding select
select-apart p id [] keys apart = refl
select-apart p id (row ∷ rows) keys apart = elim (Bool-cases (p row)) [
  | inl e ↦ absurd (apart.0 (keys row e))
  | inr e ↦ rw e (select-apart p id rows keys apart.1)
]

-- A condition on one key selects the row with that key, if it meets the condition.
abbrev pub kept_if : (Request → Bool) → Option Request → List Request
kept_if p none = []
kept_if p (some r) = if p r then r ∷ [] else []

pub select-find :
    (p : Request → Bool) (id : String) (rows : List Request)
    → ((r : Request) → p r ≡ true → r.id ≡ id)
    → IsUnique rows
    → select p rows ≡ kept_if p (find id rows)
unfolding select find
select-find p id [] keys unique = refl
select-find p id (row ∷ rows) keys (apart, unique) = elim (Bool-cases (row.id == id)) [
  | inl here ↦
      let same : row.id ≡ id = (eq_iff row.id id).0 here in
      let rest = select-apart p row.id rows (λ r e. keys r e ∙ sym same) apart in rw (here, rest)
  | inr there ↦ elim (Bool-cases (p row)) [
    | inl e ↦ let same = keys row e in let t = (eq_iff row.id id).1 same in cc (there, t)
    | inr e ↦ rw (there, e) (select-find p id rows keys unique)
  ]
]

kept-find :
    (id : String) (rows : List Request) (o : Option Request)
    → find id rows ≡ o
    → kept_if (λ row. row.id == id) o ≡ as_list o
kept-find id rows none e = refl
kept-find id rows (some r) e = ground (arith, find_id id rows r e, eq_iff r.id id)

pub select_id-find :
    (id : String) (rows : List Request)
    → IsUnique rows
    → select (λ row. row.id == id) rows ≡ as_list (find id rows)
select_id-find id rows unique =
    select-find (λ row. row.id == id) id rows (λ r h. (eq_iff r.id id).0 h) unique
    ∙ kept-find id rows (find id rows) refl

module _ (p : Request → Bool) (set : Request → Request)
    (keeps : (r : Request) → (set r).id ≡ r.id) where
  abbrev pub revise : Request → Request
  revise r = if p r then set r else r

  revise_id : (r : Request) → (revise r).id ≡ r.id
  revise_id r = ground (arith, keeps r)

  pub find-update_where :
      (id : String) (rows : List Request)
      → find id (update_where p set rows) ≡ Option.map revise (find id rows)
  unfolding find update_where
  find-update_where id [] = refl
  find-update_where id (row ∷ rows) =
      ground (arith, revise_id row, keeps row, find-update_where id rows)

  pub update_where-none :
      (rows : List Request) → select p rows ≡ [] → update_where p set rows ≡ rows
  unfolding select update_where
  update_where-none [] h = refl
  update_where-none (row ∷ rows) h = elim (Bool-cases (p row)) [
    | inl e ↦ ground arith
    | inr e ↦ ground (arith, update_where-none rows)
  ]

  All-update_where :
      (key : String) (rows : List Request)
      → All (λ q. q.id ≢ key) rows
      → All (λ q. q.id ≢ key) (update_where p set rows)
  unfolding update_where
  All-update_where key [] h = tt
  All-update_where key (row ∷ rows) h =
      ((λ e. h.0 (sym (revise_id row) ∙ e)), All-update_where key rows h.1)

  pub update_where-IsUnique :
      (rows : List Request) → IsUnique rows → IsUnique (update_where p set rows)
  unfolding update_where
  update_where-IsUnique [] h = tt
  update_where-IsUnique (row ∷ rows) (apart, unique) =
      (rw (revise_id row) (All-update_where row.id rows apart), update_where-IsUnique rows unique)
