-- ===== src/Application/Contract/Moved.antt =====
-- Runs of a client that is alone with a store that has the contract.
use review_workflow.Base.{
  ◌≡◌, ◌⊎◌, inl, inr, sym, ap, ◌∙◌, String, String-cases, eq_iff, Option, some, arith,
}
use review_workflow.Base.Int.{ℤ}
use review_workflow.Domain.{Request}
use review_workflow.Application.Errors.{Result, ok, err}
use review_workflow.Application.Interfaces.{Store}
use review_workflow.Application.Contract.{Contract, Agrees, SameRequests, UpdateLaw, GetLaw}

module _ {S : Type 0} {store : Store S} {Valid : S → Type 0} {request : S → String → Option Request}
    (c : Contract store Valid request) where
  -- A valid state with the requests of another.
  abbrev pub Same : S → S → Type 0
  Same s s' = Valid s' × SameRequests request s s'

  pub Same-trans : (s t u : S) → Same s t → Same t u → Same s u
  Same-trans s t u (v, e) (v', e') = (v', λ k. e' k ∙ e k)

  -- Every request stays, or is changed as `P` says.
  abbrev pub Moved : (Request → Request → Type 0) → S → S → Type 0
  Moved P s s' =
      Valid s'
      × ((k : String)
          → (request s' k ≡ request s k)
            ⊎ ((r r' : Request) × (request s k ≡ some r) × (request s' k ≡ some r') × P r r'))

  module _ (P : Request → Request → Type 0) where
    pub Moved-Same : (s s' : S) → Same s s' → Moved P s s'
    Moved-Same s s' (v, e) = (v, λ k. inl (e k))

    pub Moved-before : (s t u : S) → Same s t → Moved P t u → Moved P s u
    Moved-before s t u (v, e) (v', m) = (
      v',
      λ k. elim (m k) [
        | inl same ↦ inl (same ∙ e k)
        | inr (r, r', was, now_, p) ↦ inr (r, r', sym (e k) ∙ was, now_, p)
      ],
    )

    pub Moved-after : (s t u : S) → Moved P s t → Same t u → Moved P s u
    Moved-after s t u (v, m) (v', e) = (
      v',
      λ k. elim (m k) [
        | inl same ↦ inl (e k ∙ same)
        | inr (r, r', was, now_, p) ↦ inr (r, r', was, e k ∙ now_, p)
      ],
    )

    pub Moved-updated :
        (req old : Request) (expected : ℤ) (s : S) (x : Result (Unit {0}) × S)
        → ((before : Request)
            → request s req.id ≡ some before
            → before.version ≡ expected
            → before ≡ old)
        → ((new : Request) → Agrees new req → P old new)
        → Valid x.1
        → UpdateLaw request req expected s x
        → Moved P s x.1
    Moved-updated req old expected s (err e, s') known p v same = (v, λ k. inl (same k))
    Moved-updated req old expected s (ok u, s') known p v
          (before, new, was, version, agrees, now_) =
        (
          v,
          λ k. elim (String-cases req.id k) [
            | inl here ↦ inr (
              old,
              new,
              ap (request s) (sym here) ∙ was ∙ ap some (known before was version),
              ground (arith, now_ k, eq_iff req.id k),
              p new agrees,
            )
            | inr apart ↦ inl (ground (arith, now_ k, eq_iff req.id k))
          ],
        )

  get-held :
      (id : String) (s : S) (x : Result Request) (r : Request)
      → GetLaw request id s x
      → x ≡ ok r
      → request s id ≡ some r
  get-held id s (ok q) r held e = cc
  get-held id s (err q) r held e = cc

  pub held_by_id :
      (id : String) (s : S) (r : Request)
      → Valid s
      → request s id ≡ some r
      → request s r.id ≡ some r
  held_by_id id s r v held = ap (request s) (c.keyed s v id r held) ∙ held

  pub read-keyed :
      (id : String) (s : S) (r : Request) → Valid s → (store.get_request id s).0 ≡ ok r → r.id ≡ id
  read-keyed id s r v found = c.keyed s v id r (get-held id s _ r (c.gets id s v) found)

  -- What a read gives is held.
  pub read-held :
      (id : String) (s : S) (r : Request)
      → Valid s
      → (store.get_request id s).0 ≡ ok r
      → request s r.id ≡ some r
  read-held id s r v found = held_by_id id s r v (get-held id s _ r (c.gets id s v) found)
