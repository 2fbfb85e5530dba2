-- ===== src/Repository/Postgres/Update.antt =====
-- `UpdateRequest` of internal/repository/postgres/store.go, which compares and sets the version.
use mathlib.Core.Option as Option
use mathlib.Core.Path.{subst}
use mathlib.Core.Option.{some-injective}
use review_workflow.Base.{
  length, ◌≡◌, inl, inr, refl, sym, ap, ◌∙◌, Bool, true, ◌&&◌, Bool-cases, String, ◌==◌, eq_iff,
  Option, none, some, arith, [], if◌then◌else◌,
}
use review_workflow.Base.Int.{ℤ, pos, eq_ℤ, eq_ℤ_iff}
use review_workflow.Domain.{Request}
use review_workflow.Application.Errors.{Result, ok, err}
use review_workflow.Application.Contract.{Agrees, UpdateLaw}
use review_workflow.Repository.Memory.{select}
use review_workflow.Repository.Pool.{Pool, update_requests}
use review_workflow.Repository.Pool.Database.{Tables, Executed, update_where}
use review_workflow.Repository.Postgres.{scan_request, bind_request, set_request, affected}
use review_workflow.Repository.Postgres.Rows.{
  IsUnique, find, find_id, select-find, revise, find-update_where, update_where-IsUnique,
  update_where-none, kept_if,
}
use review_workflow.Repository.Postgres.Held.{HasKeys, held, quiet, read}

module _ {D : Type 0} (pool : Pool D) (tables : D → Tables) where
  module _ (req : Request) (expected : ℤ) where
    abbrev meets : Request → Bool
    meets row = row.id == req.id && eq_ℤ row.version expected

    abbrev set : Request → Request
    set = set_request pool req

    set_id : (row : Request) → (set row).id ≡ row.id
    unfolding set_request
    set_id row = refl

    set-Agrees : (row : Request) → Agrees (scan_request (set row)) req
    unfolding set_request scan_request bind_request
    set-Agrees row = record {
      type_kept = refl;
      target_kept = refl;
      justification_kept = refl;
      requester_kept = refl;
      status_kept = refl;
      version_kept = refl;
      attempts_kept = refl;
      reminders_kept = refl;
    }

    meets_id : (row : Request) → meets row ≡ true → row.id ≡ req.id
    meets_id row h = ground (arith, eq_iff row.id req.id)

    -- What a read finds after the update of the one row that meets the condition.
    held-revised :
        (old : Request) (k : String) (o : Option Request)
        → ((r : Request) → o ≡ some r → r.id ≡ k)
        → meets old ≡ true
        → (req.id ≡ k → o ≡ some old)
        → Option.map scan_request (Option.map (revise meets set set_id) o)
          ≡ (if req.id == k then some (scan_request (set old)) else Option.map scan_request o)
    held-revised old k none keyed met own = ground (arith, eq_iff req.id k)
    held-revised old k (some r) keyed met own = elim (Bool-cases (req.id == k)) [
      | inl here ↦
          let same : r ≡ old = some-injective r old (own ((eq_iff req.id k).0 here)) in
          let met' : meets r ≡ true = ap meets same ∙ met in rw (here, met', same) refl
      | inr apart ↦ elim (Bool-cases (meets r)) [
        | inl e ↦
            let here = (eq_iff req.id k).1 (sym (meets_id r e) ∙ keyed r refl) in cc (here, apart)
        | inr e ↦ rw (apart, e) refl
      ]
    ]

    meets_version : (row : Request) → meets row ≡ true → row.version ≡ expected
    meets_version row h = ground (arith, eq_ℤ_iff row.version expected)

    version_kept : (row : Request) → (scan_request row).version ≡ row.version
    unfolding scan_request
    version_kept row = refl

    held-updated :
        (d d' : D) (old : Request)
        → HasKeys tables d
        → find req.id (tables d).requests ≡ some old
        → meets old ≡ true
        → (tables d').requests ≡ update_where meets set (tables d).requests
        → (k : String)
        → held tables d' k
          ≡ (if req.id == k then some (scan_request (set old)) else held tables d k)
    held-updated d d' old v was met changed k =
        let rows = (tables d).requests in
        ap (λ rs. Option.map scan_request (find k rs)) changed
        ∙ ap (Option.map scan_request) (find-update_where meets set set_id k rows)
        ∙ held-revised old k (find k rows) (find_id k rows) met
            (λ e. ap (λ i. find i rows) (sym e) ∙ was)

    update-accepted :
        (d d' : D) (old : Request)
        → HasKeys tables d
        → find req.id (tables d).requests ≡ some old
        → meets old ≡ true
        → (tables d').requests ≡ update_where meets set (tables d).requests
        → UpdateLaw (held tables) req expected d (ok tt, d')
    update-accepted d d' old v was met changed = (
      scan_request old,
      scan_request (set old),
      ap (Option.map scan_request) was,
      version_kept old ∙ meets_version old met,
      set-Agrees old,
      held-updated d d' old v was met changed,
    )

    -- The outcome, by what the condition selects.
    update-counted :
        (d d' : D) (o : Option Request) (n : ℤ)
        → HasKeys tables d
        → find req.id (tables d).requests ≡ o
        → select meets (tables d).requests ≡ kept_if meets o
        → n ≡ pos (length (kept_if meets o))
        → (tables d').requests ≡ update_where meets set (tables d).requests
        → UpdateLaw (held tables) req expected d (affected (ok n), d')
    update-counted d d' none n v was chosen count changed =
        let same = changed ∙ update_where-none meets set set_id (tables d).requests chosen in
        rw count (quiet tables d d' same v).1
    update-counted d d' (some old) n v was chosen count changed = elim (Bool-cases (meets old)) [
      | inl met ↦
          let one : n ≡ pos 1 = count ∙ rw met refl in
          rw one (update-accepted d d' old v was met changed)
      | inr unmet ↦
          let zero_rows : n ≡ pos 0 = count ∙ rw unmet refl in
          let unchosen : select meets (tables d).requests ≡ [] = chosen ∙ rw unmet refl in
          let same = changed ∙ update_where-none meets set set_id (tables d).requests unchosen in
          rw zero_rows (quiet tables d d' same v).1
    ]

    pub update-Law :
        (d d' : D) (result : Result ℤ)
        → HasKeys tables d
        → Executed (update_requests meets set) (tables d) result (tables d')
        → HasKeys tables d' × UpdateLaw (held tables) req expected d (affected result, d')
    update-Law d d' (err e) v (kind, same) = read tables d d' same v
    update-Law d d' (ok n) v (count, changed) =
        let rows = (tables d).requests in
        let changed' : (tables d').requests ≡ update_where meets set rows =
          ap (λ t. t.requests) changed in
        let chosen = select-find meets req.id rows meets_id v in
        (
          subst IsUnique (sym changed') (update_where-IsUnique meets set set_id rows v),
          update-counted d d' (find req.id rows) n v refl chosen
              (count ∙ ap (λ rs. pos (length rs)) chosen) changed',
        )
