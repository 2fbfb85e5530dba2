-- ===== src/Application/Contract/Among/Polite.antt =====
-- Which steps are polite: the service's own calls of the store, its methods, and the worker's passes.
use review_workflow.Base.{
  ◌≡◌, ◌⊎◌, sym, ap, ◌∙◌, inl, inr, String, String-cases, eq_iff, Option, some, arith,
}
use mathlib.Core.Option.{some-injective}
use review_workflow.Base.Int.{ℤ, incr}
use review_workflow.Domain.{Request}
use review_workflow.Application.Errors.{Result, ok, err}
use review_workflow.Application.Interfaces.{Op, Store}
use review_workflow.Application.Contract.{Contract, Quiet, UpdateLaw}
use review_workflow.Application.Contract.Among.{IsPolite}

module _ {S : Type 0} {store : Store S} {Valid : S → Type 0} {request : S → String → Option Request}
    (c : Contract store Valid request) where
  -- A call of the store that changes no request.
  pub Quiet-IsPolite :
      {A : Type 0} (op : Op S A) → Quiet Valid request op → IsPolite Valid request (λ s. (op s).1)
  Quiet-IsPolite op q s v = let (v', same) = q s v in (v', λ k r held. inl (same k ∙ held))

  updated-held :
      (req : Request) (expected : ℤ) (s : S) (x : Result (Unit {0}) × S) (k : String) (r : Request)
      → req.version ≡ incr expected
      → UpdateLaw request req expected s x
      → request s k ≡ some r
      → (request x.1 k ≡ some r)
        ⊎ ((r' : Request) × (request x.1 k ≡ some r') × (r'.version ≡ incr r.version))
  updated-held req expected s (err e, s') k r next same held = inl (same k ∙ held)
  updated-held req expected s (ok u, s') k r next (old, new, was, version, agrees, now_) held =
      elim (String-cases req.id k) [
        | inl here ↦
            let e : r ≡ old = some-injective r old (sym held ∙ ap (request s) (sym here) ∙ was) in
            inr (
              new,
              ground (arith, now_ k, eq_iff req.id k),
              agrees.version_kept ∙ next ∙ ap incr (sym (ap (λ q. q.version) e ∙ version)),
            )
        | inr apart ↦ inl (ground (arith, now_ k, eq_iff req.id k, held))
      ]

  -- An update with the version after the one that it expects.
  pub update-IsPolite :
      (req : Request) (expected : ℤ)
      → req.version ≡ incr expected
      → IsPolite Valid request (λ s. (store.update_request req expected s).1)
  update-IsPolite req expected next s v =
      let (v', law) = c.updates req expected s v in
      (v', λ k r held. updated-held req expected s _ k r next law held)
