-- ===== src/Tests/Database.antt =====
-- A database in memory that behaves as documented, with times in whole milliseconds, to run
-- internal/repository/postgres/store.go on.
use mathlib.Core.List.{Perm}
use mathlib.Core.List.Perm
use review_workflow.Base.{
  ◌≡◌, ◌≢◌, refl, inl, inr, Bool, true, false, ◌&&◌, Bool-cases, ◌==◌, eq_iff, arith, Option, none,
  some, List, [], ◌∷◌, length, All, Any, here, there, if◌then◌else◌,
}
use review_workflow.Base.Int.{ℤ, pos, ltb_ℤ}
use review_workflow.Domain.{Time, Request, IdempotencyRecord}
use review_workflow.Application.Errors.{Error, other, Result, ok, err}
use review_workflow.Repository.Memory.{select}
use review_workflow.Repository.Pool.{
  Pool, Command, insert_request, insert_audit, insert_review, insert_job_run, insert_idempotency,
  update_requests, Select,
}
use review_workflow.Repository.Pool.Database.{
  Tables, IsDatabase, Executed, Selected, SameKey, NotLater, IsOrderedBy, IsOrdered, limited,
  update_where,
}

abbrev violation : Error
violation = record { kind = other; message = "unique constraint" }

abbrev any : {A : Type 0} → (A → Bool) → List A → Bool
any p [] = false
any p (x ∷ xs) = let later = any p xs in if p x then true else later

abbrev same_id : Request → Request → Bool
same_id row q = q.id == row.id

abbrev same_key : IdempotencyRecord → IdempotencyRecord → Bool
same_key row q = row.scope == q.scope && row.key == q.key

abbrev exec : Command → Tables → Result ℤ × Tables
exec (insert_request row) t =
    if any (same_id row) t.requests
    then (err violation, t)
    else (ok (pos 1), record t { requests = row ∷ t.requests })
exec (insert_audit row) t = (ok (pos 1), record t { audit = row ∷ t.audit })
exec (insert_review row) t = (ok (pos 1), record t { reviews = row ∷ t.reviews })
exec (insert_job_run row) t = (ok (pos 1), record t { job_runs = row ∷ t.job_runs })
exec (insert_idempotency row) t =
    if any (same_key row) t.idempotency
    then (ok (pos 0), t)
    else (ok (pos 1), record t { idempotency = row ∷ t.idempotency })
exec (update_requests p set) t =
    (ok (pos (length (select p t.requests))), record t { requests = update_where p set t.requests })

-- `a > b`, where `NULL` is last.
abbrev later : Option Time → Option Time → Bool
later a none = false
later none (some b) = true
later (some a) (some b) = ltb_ℤ b a

abbrev place : {A : Type 0} → (A → Option Time) → A → List A → List A
place key x [] = x ∷ []
place key x (y ∷ ys) =
    let rest = place key x ys in if later (key x) (key y) then y ∷ rest else x ∷ y ∷ ys

abbrev arrange : {A : Type 0} → (A → Option Time) → List A → List A
arrange key [] = []
arrange key (x ∷ xs) = place key x (arrange key xs)

abbrev arranged : {A : Type 0} → Option (A → Option Time) → List A → List A
arranged none xs = xs
arranged (some key) xs = arrange key xs

abbrev answer : {A : Type 0} → Select A → List A → Result (List A)
answer q rows = ok (limited q.limit (arranged q.order_by (select q.where_ rows)))

abbrev pub pool : Pool Tables
pool = record {
  exec = exec;
  query_requests = λ q t. (answer q t.requests, t);
  query_audit = λ q t. (answer q t.audit, t);
  query_idempotency = λ q t. (answer q t.idempotency, t);
  bind_time = λ t. t;
}

module _ {A : Type 0} where
  any-All : (p : A → Bool) (xs : List A) → any p xs ≡ false → All (λ x. p x ≡ false) xs
  any-All p [] h = tt
  any-All p (x ∷ xs) h = elim (Bool-cases (p x)) [
    | inl e ↦ ground arith
    | inr e ↦ (e, any-All p xs (ground arith))
  ]

  any-Any : (p : A → Bool) (xs : List A) → any p xs ≡ true → Any (λ x. p x ≡ true) xs
  any-Any p [] h = ground arith
  any-Any p (x ∷ xs) h = elim (Bool-cases (p x)) [
    | inl e ↦ here e
    | inr e ↦ there (any-Any p xs (ground arith))
  ]

  All-map : (P Q : A → Type 0) → ((x : A) → P x → Q x) → (xs : List A) → All P xs → All Q xs
  All-map P Q f [] h = tt
  All-map P Q f (x ∷ xs) h = (f x h.0, All-map P Q f xs h.1)

  Any-map : (P Q : A → Type 0) → ((x : A) → P x → Q x) → (xs : List A) → Any P xs → Any Q xs
  Any-map P Q f [] a = elim a [ ]
  Any-map P Q f (x ∷ xs) (here p) = here (f x p)
  Any-map P Q f (x ∷ xs) (there a) = there (Any-map P Q f xs a)

NotLater-trans : (a b c : Option Time) → NotLater a b → NotLater b c → NotLater a c
NotLater-trans a b none h k = tt
NotLater-trans a none (some c) h k = elim k [ ]
NotLater-trans none (some b) (some c) h k = elim h [ ]
NotLater-trans (some a) (some b) (some c) h k = ground arith

later-true : (a b : Option Time) → later a b ≡ true → NotLater b a
later-true a none h = ground arith
later-true none (some b) h = tt
later-true (some a) (some b) h = ground arith

later-false : (a b : Option Time) → later a b ≡ false → NotLater a b
later-false a none h = tt
later-false none (some b) h = ground arith
later-false (some a) (some b) h = ground arith

module _ {A : Type 0} (key : A → Option Time) where
  place-Perm : (x : A) (xs : List A) → Perm (place key x xs) (x ∷ xs)
  place-Perm x [] = Perm.refl (x ∷ [])
  place-Perm x (y ∷ ys) = elim (Bool-cases (later (key x) (key y))) [
    | inl e ↦ rw e (Perm.trans (Perm.cons y (place-Perm x ys)) (Perm.swap x y ys))
    | inr e ↦ rw e (Perm.refl (x ∷ y ∷ ys))
  ]

  All-place : (P : A → Type 0) (x : A) (xs : List A) → P x → All P xs → All P (place key x xs)
  All-place P x [] p h = (p, tt)
  All-place P x (y ∷ ys) p h = elim (Bool-cases (later (key x) (key y))) [
    | inl e ↦ rw e (h.0, All-place P x ys p h.1)
    | inr e ↦ rw e (p, h)
  ]

  place-IsOrderedBy : (x : A) (xs : List A) → IsOrderedBy key xs → IsOrderedBy key (place key x xs)
  place-IsOrderedBy x [] h = (tt, tt)
  place-IsOrderedBy x (y ∷ ys) h = elim (Bool-cases (later (key x) (key y))) [
    | inl e ↦ rw e (
      All-place (λ z. NotLater (key y) (key z)) x ys (later-true (key x) (key y) e) h.0,
      place-IsOrderedBy x ys h.1,
    )
    | inr e ↦
        let first = later-false (key x) (key y) e in
        rw e
          ((first, All-map _ _ (λ z q. NotLater-trans (key x) (key y) (key z) first q) ys h.0), h)
  ]

  arrange-Perm : (xs : List A) → Perm (arrange key xs) xs
  arrange-Perm [] = Perm.refl []
  arrange-Perm (x ∷ xs) = Perm.trans (place-Perm x (arrange key xs)) (Perm.cons x (arrange-Perm xs))

  arrange-IsOrderedBy : (xs : List A) → IsOrderedBy key (arrange key xs)
  arrange-IsOrderedBy [] = tt
  arrange-IsOrderedBy (x ∷ xs) = place-IsOrderedBy x (arrange key xs) (arrange-IsOrderedBy xs)

module _ {A : Type 0} where
  arranged-Perm : (order : Option (A → Option Time)) (xs : List A) → Perm (arranged order xs) xs
  arranged-Perm none xs = Perm.refl xs
  arranged-Perm (some key) xs = arrange-Perm key xs

  arranged-IsOrdered :
      (order : Option (A → Option Time)) (xs : List A) → IsOrdered order (arranged order xs)
  arranged-IsOrdered none xs = tt
  arranged-IsOrdered (some key) xs = arrange-IsOrderedBy key xs

  answer-Selected : (q : Select A) (rows : List A) → Selected q rows (answer q rows)
  answer-Selected q rows =
      let chosen = select q.where_ rows in
      (
        arranged q.order_by chosen,
        arranged-Perm q.order_by chosen,
        arranged-IsOrdered q.order_by chosen,
        refl,
      )

same_key-SameKey : (a b : IdempotencyRecord) → (same_key a b ≡ true) → SameKey a b
same_key-SameKey a b h = ground (arith, eq_iff a.scope b.scope, eq_iff a.key b.key)

SameKey-same_key : (a b : IdempotencyRecord) → SameKey a b → same_key a b ≡ true
SameKey-same_key a b h = ground (arith, eq_iff a.scope b.scope, eq_iff a.key b.key)

exec-Executed : (c : Command) (t : Tables) → let (result, t') = exec c t in Executed c t result t'
exec-Executed (insert_request row) t = elim (Bool-cases (any (same_id row) t.requests)) [
  | inl e ↦ rw e (refl, refl)
  | inr e ↦ rw e (
    All-map (λ q. same_id row q ≡ false) (λ q. q.id ≢ row.id)
        (λ q apart same. ground (arith, eq_iff q.id row.id)) t.requests
        (any-All (same_id row) t.requests e),
    refl,
  )
]
exec-Executed (insert_audit row) t = refl
exec-Executed (insert_review row) t = refl
exec-Executed (insert_job_run row) t = refl
exec-Executed (insert_idempotency row) t = elim (Bool-cases (any (same_key row) t.idempotency)) [
  | inl e ↦ rw e (
      inl (
        refl,
        refl,
        Any-map (λ q. same_key row q ≡ true) (SameKey row) (same_key-SameKey row) t.idempotency
            (any-Any (same_key row) t.idempotency e),
      ))
  | inr e ↦ rw e (
      inr (
        refl,
        refl,
        All-map (λ q. same_key row q ≡ false) (λ q. SameKey row q → ⊥)
            (λ q apart same. ground (arith, SameKey-same_key row q same)) t.idempotency
            (any-All (same_key row) t.idempotency e),
      ))
]
exec-Executed (update_requests p set) t = (refl, refl)

abbrev pub as_tables : Tables → Tables
as_tables t = t

pub pool-IsDatabase : IsDatabase pool as_tables
pool-IsDatabase = record {
  executes = exec-Executed;
  finds_requests = λ q t. (answer-Selected q t.requests, refl);
  finds_audit = λ q t. (answer-Selected q t.audit, refl);
  finds_idempotency = λ q t. (answer-Selected q t.idempotency, refl);
}
