-- ===== src/Repository/Postgres/Held.antt =====
-- What a read by the primary key finds in internal/repository/postgres/store.go.
use mathlib.Core.Option as Option
use mathlib.Core.Path.{subst}
use mathlib.Core.Option.{some-injective}
use mathlib.Core.List.{Perm, perm-replicate}
use mathlib.Core.List.Perm
use mathlib.Core.Nat.{zero, suc}
use text.Mathlib.TextEquality.{IsScalar-prop}
use review_workflow.Base.{◌≡◌, refl, sym, ap, ◌∙◌, String, ◌==◌, Option, none, some, List}
use review_workflow.Domain.{Request}
use review_workflow.Application.Errors.{Result, ok, err}
use review_workflow.Application.Contract.{GetLaw, SameRequests}
use review_workflow.Repository.Pool.{Select}
use review_workflow.Repository.Pool.Database.{Tables, Selected}
use review_workflow.Repository.Postgres.{scan_request, first_row, map_result}
use review_workflow.Repository.Postgres.Rows.{IsUnique, find, find_id, as_list, select_id-find}

pub Request-set : IsSet Request
Request-set = hlevel IsScalar-prop

perm_as_list : (xs : List Request) (o : Option Request) → Perm xs (as_list o) → xs ≡ as_list o
perm_as_list xs none p = Perm.eq-nil p
perm_as_list xs (some a) p = (perm-replicate Request-set (suc zero) a).0 p

module _ {D : Type 0} (tables : D → Tables) where
  abbrev pub HasKeys : D → Type 0
  HasKeys d = IsUnique (tables d).requests

  -- What a read gives.
  abbrev pub held : D → String → Option Request
  held d k = Option.map scan_request (find k (tables d).requests)

  abbrev pub Unchanged : D → D → Type 0
  Unchanged d d' = (tables d').requests ≡ (tables d).requests

  pub quiet : (d d' : D) → Unchanged d d' → HasKeys d → HasKeys d' × SameRequests held d d'
  quiet d d' same v =
      (subst IsUnique (sym same) v, λ k. ap (λ rows. Option.map scan_request (find k rows)) same)

  pub read : (d d' : D) → tables d' ≡ tables d → HasKeys d → HasKeys d' × SameRequests held d d'
  read d d' same = quiet d d' (ap (λ t. t.requests) same)

  abbrev pub by_id : String → Select Request
  by_id id = record { where_ = λ row. row.id == id; order_by = none; limit = none }

  found-by_id :
      (id : String) (rows found : List Request)
      → IsUnique rows
      → Selected (by_id id) rows (ok found)
      → found ≡ as_list (find id rows)
  found-by_id id rows found v (all, perm, ordered, e) =
      e ∙ perm_as_list all (find id rows) (subst (Perm all) (select_id-find id rows v) perm)

  first-GetLaw :
      (id : String) (d : D) (o : Option Request)
      → find id (tables d).requests ≡ o
      → GetLaw held id d (map_result scan_request (first_row (ok (as_list o))))
  first-GetLaw id d none e = λ _. ap (Option.map scan_request) e
  first-GetLaw id d (some r) e = ap (Option.map scan_request) e

  pub get-GetLaw :
      (id : String) (d : D) (result : Result (List Request))
      → HasKeys d
      → Selected (by_id id) (tables d).requests result
      → GetLaw held id d (map_result scan_request (first_row result))
  get-GetLaw id d (err e) v failed = λ missing. cc
  get-GetLaw id d (ok found) v h =
      rw (found-by_id id (tables d).requests found v h)
        (first-GetLaw id d (find id (tables d).requests) refl)

  scanned_id :
      (k : String) (o : Option Request)
      → ((r : Request) → o ≡ some r → r.id ≡ k)
      → (r : Request) → Option.map scan_request o ≡ some r
      → r.id ≡ k
  unfolding scan_request
  scanned_id k none keyed r e = cc
  scanned_id k (some row) keyed r e =
      sym (ap (λ q. q.id) (some-injective (scan_request row) r e)) ∙ keyed row refl

  pub held_id : (d : D) (k : String) (r : Request) → held d k ≡ some r → r.id ≡ k
  held_id d k = scanned_id k (find k (tables d).requests) (find_id k (tables d).requests)
