-- ===== src/Repository/Postgres/Listed.antt =====
-- The listings of internal/repository/postgres/store.go give rows that are stored, each once.
use mathlib.Core.List.{Perm}
use mathlib.Core.List.{Permᴰ}
use mathlib.Core.List.Permᴰ.{nil, cons, swap, trans}
use mathlib.Core.Path.{subst}
use review_workflow.Base.{
  ℕ, zero, suc, ◌≡◌, ◌≢◌, refl, sym, ap, ◌∙◌, Bool, true, Bool-cases, inl, inr, eq_iff, Option,
  some, arith, List, [], ◌∷◌, All, take,
}
use mathlib.Core.List.Perm
use mathlib.Core.Option as Option
use mathlib.Core.Logic.{∥∥₁_elim}
use review_workflow.Base.Int.{ℤ, pos_part}
use review_workflow.Domain.{Request, Time}
use review_workflow.Application.Errors.{Result, ok, err}
use review_workflow.Repository.Pool.Database.{Tables, Selected}
use review_workflow.Repository.Postgres.{map_result}
use review_workflow.Repository.Postgres.Held.{held, Request-set}
use review_workflow.Repository.Memory.{select}
use review_workflow.Application.Contract.{IsDistinct, ListLaw}
use review_workflow.Repository.Postgres.{scan_request, collect_requests}
use review_workflow.Repository.Postgres.Rows.{IsUnique, find}

module _ (P : Request → Type 0) where
  All-map :
      (Q : Request → Type 0)
      → ((r : Request) → P r → Q r)
      → (rs : List Request) → All P rs
      → All Q rs
  All-map Q f [] h = tt
  All-map Q f (r ∷ rs) h = (f r h.0, All-map Q f rs h.1)

  All-select : (p : Request → Bool) (rs : List Request) → All P rs → All P (select p rs)
  unfolding select
  All-select p [] h = tt
  All-select p (r ∷ rs) h = elim (Bool-cases (p r)) [
    | inl e ↦ rw e (h.0, All-select p rs h.1)
    | inr e ↦ rw e (All-select p rs h.1)
  ]

  All-take : (n : ℕ) (rs : List Request) → All P rs → All P (take n rs)
  All-take zero rs h = tt
  All-take (suc n) [] h = tt
  All-take (suc n) (r ∷ rs) h = (h.0, All-take n rs h.1)

  All-prop : ((r : Request) → IsProp (P r)) → (rs : List Request) → IsProp (All P rs)
  All-prop prop [] = hlevel
  All-prop prop (r ∷ rs) = hlevel (prop r, All-prop prop rs)

unique-IsDistinct : (rs : List Request) → IsUnique rs → IsDistinct rs
unique-IsDistinct [] h = tt
unique-IsDistinct (r ∷ rs) h = (
  All-map (λ q. q.id ≢ r.id) (λ q. r.id ≢ q.id) (λ q apart e. apart (sym e)) rs h.0,
  unique-IsDistinct rs h.1,
)

select-IsDistinct :
    (p : Request → Bool) (rs : List Request) → IsDistinct rs → IsDistinct (select p rs)
unfolding select
select-IsDistinct p [] h = tt
select-IsDistinct p (r ∷ rs) h = elim (Bool-cases (p r)) [
  | inl e ↦ rw e (All-select (λ q. r.id ≢ q.id) p rs h.0, select-IsDistinct p rs h.1)
  | inr e ↦ rw e (select-IsDistinct p rs h.1)
]

take-IsDistinct : (n : ℕ) (rs : List Request) → IsDistinct rs → IsDistinct (take n rs)
take-IsDistinct zero rs h = tt
take-IsDistinct (suc n) [] h = tt
take-IsDistinct (suc n) (r ∷ rs) h =
    (All-take (λ q. r.id ≢ q.id) n rs h.0, take-IsDistinct n rs h.1)

IsDistinct-prop : (rs : List Request) → IsProp (IsDistinct rs)
IsDistinct-prop [] = hlevel
IsDistinct-prop (r ∷ rs) = hlevel (All-prop (λ q. r.id ≢ q.id) (λ q. hlevel) rs, IsDistinct-prop rs)

All-PermD : (P : Request → Type 0) (xs ys : List Request) → Permᴰ xs ys → All P xs → All P ys
All-PermD P xs ys nil h = tt
All-PermD P (x ∷ xs) (y ∷ ys) (cons e d) h = (subst P e h.0, All-PermD P xs ys d h.1)
All-PermD P (a ∷ b ∷ xs) (c ∷ d ∷ _) (swap e f) h = (subst P f h.1.0, (subst P e h.0, h.1.1))
All-PermD P xs zs (trans {l₂ = ys} d e) h = All-PermD P ys zs e (All-PermD P xs ys d h)

IsDistinct-PermD : (xs ys : List Request) → Permᴰ xs ys → IsDistinct xs → IsDistinct ys
IsDistinct-PermD xs ys nil h = tt
IsDistinct-PermD (x ∷ xs) (y ∷ ys) (cons e d) h = (
  subst (λ r. All (λ q. r.id ≢ q.id) ys) e (All-PermD (λ q. x.id ≢ q.id) xs ys d h.0),
  IsDistinct-PermD xs ys d h.1,
)
IsDistinct-PermD (a ∷ b ∷ xs) (c ∷ d ∷ _) (swap e f) h = (
  (
    (λ same. h.0.0 (ap (λ r. r.id) e ∙ sym same ∙ sym (ap (λ r. r.id) f))),
    subst (λ r. All (λ q. r.id ≢ q.id) xs) f h.1.0,
  ),
  (subst (λ r. All (λ q. r.id ≢ q.id) xs) e h.0.1, h.1.1),
)
IsDistinct-PermD xs zs (trans {l₂ = ys} d e) h =
    IsDistinct-PermD ys zs e (IsDistinct-PermD xs ys d h)

found-set : IsSet (Option Request)
found-set = hlevel Request-set

-- Stored rows, each once, that are selected.
abbrev Stored : (Request → Bool) → List Request → List Request → Type 0
Stored p rows xs = All (λ r. find r.id rows ≡ some r) xs × IsDistinct xs × All (λ r. p r ≡ true) xs

Stored-prop : (p : Request → Bool) (rows xs : List Request) → IsProp (Stored p rows xs)
Stored-prop p rows xs = hlevel (
  All-prop (λ r. find r.id rows ≡ some r) (λ r. found-set (find r.id rows) (some r)) xs,
  IsDistinct-prop xs,
  All-prop (λ r. p r ≡ true) (λ r. hlevel) xs,
)

Stored-Perm :
    (p : Request → Bool) (rows xs ys : List Request)
    → Perm xs ys
    → Stored p rows xs
    → Stored p rows ys
Stored-Perm p rows xs ys perm h = ∥∥₁_elim perm (Stored-prop p rows ys) (λ d. (
  All-PermD (λ r. find r.id rows ≡ some r) xs ys d h.0,
  IsDistinct-PermD xs ys d h.1,
  All-PermD (λ r. p r ≡ true) xs ys d h.2,
))

selected-true : (p : Request → Bool) (rows : List Request) → All (λ r. p r ≡ true) (select p rows)
unfolding select
selected-true p [] = tt
selected-true p (r ∷ rs) = elim (Bool-cases (p r)) [
  | inl e ↦ rw e (e, selected-true p rs)
  | inr e ↦ rw e (selected-true p rs)
]

find-later :
    (row : Request) (rows xs : List Request)
    → All (λ q. q.id ≢ row.id) xs
    → All (λ r. find r.id rows ≡ some r) xs
    → All (λ r. find r.id (row ∷ rows) ≡ some r) xs
unfolding find
find-later row rows [] apart h = tt
find-later row rows (r ∷ xs) apart h =
    (ground (arith, eq_iff row.id r.id, apart.0, h.0), find-later row rows xs apart.1 h.1)

rows-find : (rows : List Request) → IsUnique rows → All (λ r. find r.id rows ≡ some r) rows
unfolding find
rows-find [] h = tt
rows-find (row ∷ rows) (apart, unique) = (
  rw ((eq_iff row.id row.id).1 refl) refl,
  find-later row rows rows apart (rows-find rows unique),
)

module _ {D : Type 0} (tables : D → Tables) where
  collected-held :
      (d : D) (xs : List Request)
      → All (λ r. find r.id (tables d).requests ≡ some r) xs
      → All (λ r. held tables d r.id ≡ some r) (collect_requests xs)
  unfolding collect_requests scan_request
  collected-held d [] h = tt
  collected-held d (r ∷ xs) h = (ap (Option.map scan_request) h.0, collected-held d xs h.1)

  collected_apart :
      (r : Request) (xs : List Request)
      → All (λ q. r.id ≢ q.id) xs
      → All (λ q. (scan_request r).id ≢ q.id) (collect_requests xs)
  unfolding collect_requests scan_request
  collected_apart r [] h = tt
  collected_apart r (q ∷ xs) h = (h.0, collected_apart r xs h.1)

  collected-IsDistinct : (xs : List Request) → IsDistinct xs → IsDistinct (collect_requests xs)
  unfolding collect_requests
  collected-IsDistinct [] h = tt
  collected-IsDistinct (r ∷ xs) h = (collected_apart r xs h.0, collected-IsDistinct xs h.1)

  collected-Due :
      (p : Request → Bool) (Due : Request → Type 0)
      → ((r : Request) → p r ≡ true → Due (scan_request r))
      → (xs : List Request) → All (λ r. p r ≡ true) xs
      → All Due (collect_requests xs)
  unfolding collect_requests
  collected-Due p Due why [] h = tt
  collected-Due p Due why (r ∷ xs) h = (why r h.0, collected-Due p Due why xs h.1)

  -- What a query with an order and a limit gives.
  pub Selected-ListLaw :
      (d : D) (p : Request → Bool) (Due : Request → Type 0)
      (why : (r : Request) → p r ≡ true → Due (scan_request r)) (key : Request → Option Time)
      (limit : ℤ) (result : Result (List Request))
      → IsUnique (tables d).requests
      → Selected
          (record { where_ = p; order_by = some key; limit = some limit })
          (tables d).requests
          result
      → ListLaw (held tables) Due d (map_result collect_requests result)
  Selected-ListLaw d p Due why key limit (err e) unique failed = tt
  Selected-ListLaw d p Due why key limit (ok found) unique (all, perm, ordered, e) =
      let rows = (tables d).requests in
      let n = pos_part limit in
      let (stored, distinct, due) = Stored-Perm p rows (select p rows) all (Perm.symm perm) (
        All-select (λ r. find r.id rows ≡ some r) p rows (rows-find rows unique),
        select-IsDistinct p rows (unique-IsDistinct rows unique),
        selected-true p rows,
      ) in
      rw e (
        collected-held d (take n all) (All-take (λ r. find r.id rows ≡ some r) n all stored),
        collected-IsDistinct (take n all) (take-IsDistinct n all distinct),
        collected-Due p Due why (take n all) (All-take (λ r. p r ≡ true) n all due),
      )
