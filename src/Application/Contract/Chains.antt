-- ===== src/Application/Contract/Chains.antt =====
-- Actions that treat one request after the other, over a store with the contract.
use review_workflow.Base.{
  ◌≡◌, ◌≢◌, ◌⊎◌, inl, inr, refl, sym, ap, ◌∙◌, String, Option, some, List, [], ◌∷◌, All, Any, here,
  there,
}
use review_workflow.Domain.{Request}
use review_workflow.Application.Errors.{Result, ok, err}
use review_workflow.Application.Interfaces.{Store}
use review_workflow.Application.Monad.{World, M, ◌>>◌}
use review_workflow.Application.Contract.{Contract, IsDistinct}
use review_workflow.Application.Contract.Moved.{Moved}

module _ {S : Type 0} {store : Store S} {Valid : S → Type 0} {request : S → String → Option Request}
    (c : Contract store Valid request) (P : Request → Request → Type 0) where
  abbrev pub AllHeld : S → List Request → Type 0
  AllHeld s rs = All (λ r. request s r.id ≡ some r) rs

  -- Every request stays, or is one of `rs` and is changed as `P` says.
  abbrev pub MovedIn : List Request → S → S → Type 0
  MovedIn rs s s' =
      Valid s'
      × ((k : String)
          → (request s' k ≡ request s k)
            ⊎ (Any (λ q. q.id ≡ k) rs
                × ((r r' : Request) × (request s k ≡ some r) × (request s' k ≡ some r') × P r r')))

  pub MovedIn-Moved : (rs : List Request) (s s' : S) → MovedIn rs s s' → Moved c P s s'
  MovedIn-Moved rs s s' (v, m) =
      (v, λ k. elim (m k) [ inl same ↦ inl same | inr (_, change) ↦ inr change ])

  All-apart :
      (r : Request) (rs : List Request) (s s' : S)
      → MovedIn (r ∷ []) s s'
      → All (λ q. r.id ≢ q.id) rs
      → AllHeld s rs
      → AllHeld s' rs
  All-apart r [] s s' m apart held = tt
  All-apart r (q ∷ rs) s s' m apart held = (
    elim (m.1 q.id) [
      | inl same ↦ same ∙ held.0
      | inr (here e, _) ↦ absurd (apart.0 e)
      | inr (there none_, _) ↦ elim none_ [ ]
    ],
    All-apart r rs s s' m apart.1 held.1,
  )

  Any-apart :
      (r : Request) (rs : List Request) (k : String)
      → r.id ≡ k
      → All (λ q. r.id ≢ q.id) rs
      → Any (λ q. q.id ≡ k) rs
      → ⊥
  Any-apart r [] k e apart a = elim a [ ]
  Any-apart r (q ∷ rs) k e apart (here same) = apart.0 (e ∙ sym same)
  Any-apart r (q ∷ rs) k e apart (there a) = Any-apart r rs k e apart.1 a

  Any-first :
      (r : Request) (rs : List Request) (k : String)
      → Any (λ q. q.id ≡ k) (r ∷ [])
      → Any (λ q. q.id ≡ k) (r ∷ rs)
  Any-first r rs k (here e) = here e
  Any-first r rs k (there none_) = elim none_ [ ]

  MovedIn-cons :
      (r : Request) (rs : List Request) (s t u : S)
      → All (λ q. r.id ≢ q.id) rs
      → MovedIn (r ∷ []) s t
      → MovedIn rs t u
      → MovedIn (r ∷ rs) s u
  MovedIn-cons r rs s t u apart (v, m) (v', m') = (
    v',
    λ k. elim (m' k) [
      | inl same' ↦ elim (m k) [
        | inl same ↦ inl (same' ∙ same)
        | inr (within, (a, b, was, now_, p)) ↦
            inr (Any-first r rs k within, (a, b, was, same' ∙ now_, p))
      ]
      | inr (later, (a, b, was, now_, p)) ↦ elim (m k) [
        | inl same ↦ inr (there later, (a, b, sym same ∙ was, now_, p))
        | inr (here e, _) ↦ absurd (Any-apart r rs k e apart later)
        | inr (there none_, _) ↦ elim none_ [ ]
      ]
    ],
  )

  MovedIn-first :
      (r : Request) (rs : List Request) (s t : S) → MovedIn (r ∷ []) s t → MovedIn (r ∷ rs) s t
  MovedIn-first r rs s t (v, m) = (
    v,
    λ k. elim (m k) [
      | inl same ↦ inl same
      | inr (within, change) ↦ inr (Any-first r rs k within, change)
    ],
  )

  -- A change of the one request `r`.
  pub Moved-MovedIn :
      (r : Request) (s s' : S)
      → Valid s
      → Moved c (λ o n. (o ≡ r) × P o n) s s'
      → MovedIn (r ∷ []) s s'
  Moved-MovedIn r s s' v (v', m) = (
    v',
    λ k. elim (m k) [
      | inl same ↦ inl same
      | inr (o, n, was, now_, (e, p)) ↦
          inr (here (ap (λ q. q.id) (sym e) ∙ c.keyed s v k o was), (o, n, was, now_, p))
    ],
  )

  module _ (Due : Request → Type 0) (one : Request → M S (Unit {0}))
      (all : List Request → M S (Unit {0})) (all-nil : (w : World S) → all [] w ≡ (ok tt, w))
      (all-cons : (r : Request) (rs : List Request) (w : World S)
        → all (r ∷ rs) w ≡ (one r >> all rs) w)
      (step : (r : Request) (w : World S)
        → Valid w.state
        → request w.state r.id ≡ some r
        → Due r
        → MovedIn (r ∷ []) w.state (one r w).1.state) where
    rest-MovedIn :
        (r : Request) (rs : List Request) (s : S) (x : Result (Unit {0}) × World S)
        → All (λ q. r.id ≢ q.id) rs
        → MovedIn (r ∷ []) s x.1.state
        → MovedIn rs x.1.state (all rs x.1).1.state
        → MovedIn (r ∷ rs) s (((λ _. x) >> all rs) x.1).1.state
    rest-MovedIn r rs s (ok u, w) apart first later =
        MovedIn-cons r rs s w.state (all rs w).1.state apart first later
    rest-MovedIn r rs s (err e, w) apart first later = MovedIn-first r rs s w.state first

    pub All-MovedIn :
        (rs : List Request) (w : World S)
        → Valid w.state
        → AllHeld w.state rs
        → IsDistinct rs
        → All Due rs
        → MovedIn rs w.state (all rs w).1.state
    All-MovedIn [] w v held distinct due = rw (all-nil w) (v, λ k. inl refl)
    All-MovedIn (r ∷ rs) w v held distinct due =
        let first = step r w v held.0 due.0 in
        let w' = (one r w).1 in
        rw (all-cons r rs w) (
          rest-MovedIn r rs w.state (one r w) distinct.0 first (
            All-MovedIn rs w' first.0 (All-apart r rs w.state w'.state first distinct.0 held.1)
              distinct.1 due.1))
