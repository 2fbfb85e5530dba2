-- ===== src/Application/Contract/Among/Steps.antt =====
-- What a client that shares its store still knows of a request that it has read.
use review_workflow.Base.{
  ℕ, suc, ◌+◌, ◌<◌, ◌≡◌, ◌≢◌, ◌∙◌, ◌⊎◌, inl, inr, String, Option, some, List, [], ◌∷◌, arith,
}
use review_workflow.Domain.{Request}
use review_workflow.Application.Contract.{SameRequests}
use review_workflow.Application.Contract.Later.{IsLater, IsLater-next}
use review_workflow.Application.Contract.Among.{
  Shared, left, in_order, settled, settle, IsShared, other, own_turn, quiet, Acts, none_yet,
  and_then, Own,
}

module _ {S : Type 0} (Valid : S → Type 0) (request : S → String → Option Request) where
  -- What was read as `r` is held, as later transitions have left it, and it stays so for fewer than
  -- 2 ^ 64 of them.
  abbrev pub Knows : Request → Shared S → Type 0
  Knows r t =
      (q : Request) × (n : ℕ) × (request t.state r.id ≡ some q)
      × IsLater r q n
      × (n + left t.others < 0x10000000000000000)

  -- A run in which the client changes no request.
  abbrev pub Between : Shared S → Shared S → Type 0
  Between t u =
      IsShared Valid request u × Acts Valid request t u × ((r : Request) → Knows r t → Knows r u)

  -- A run in which the client changes at most one.
  abbrev pub Changes : (Request → Request → Type 0) → Shared S → Shared S → Type 0
  Changes P t u =
      (x y : Shared S) × Acts Valid request t x
      × Acts Valid request y u
      × ((own : Own Valid request P x y) × ((r : Request)
            → r.id ≢ own.old.id
            → Knows r t
            → Knows r u))

  abbrev pub Ends : (Request → Request → Type 0) → Shared S → Shared S → Type 0
  Ends P t u = IsShared Valid request u × (Between t u ⊎ Changes P t u)

  Acts-trans :
      {t u v : Shared S} → Acts Valid request t u → Acts Valid request u v → Acts Valid request t v
  Acts-trans es none_yet = es
  Acts-trans es (and_then fs b) = and_then (Acts-trans es fs) b

  pub Between-refl : (t : Shared S) → IsShared Valid request t → Between t t
  Between-refl t v = (v, none_yet, λ r known. known)

  pub Between-trans : (t u v : Shared S) → Between t u → Between u v → Between t v
  Between-trans t u v (good, es, later) (good', fs, later') =
      (good', Acts-trans es fs, λ r known. later' r (later r known))

  module _ (P : Request → Request → Type 0) where
    pub Ends-none : (t u : Shared S) → Between t u → Ends P t u
    Ends-none t u b = (b.0, inl b)

    pub Ends-before : (t u v : Shared S) → Between t u → Ends P u v → Ends P t v
    Ends-before t u v b (good, inl b') = (good, inl (Between-trans t u v b b'))
    Ends-before t u v (_, es, later) (good, inr (x, y, fs, hs, (own, keeps))) = (
      good,
      inr (x, y, Acts-trans es fs, hs, (own, λ r apart known. keeps r apart (later r known))),
    )

    pub Ends-after : (t u v : Shared S) → Ends P t u → Between u v → Ends P t v
    Ends-after t u v (good, inl b) b' = (b'.0, inl (Between-trans t u v b b'))
    Ends-after t u v (good, inr (x, y, fs, hs, (own, keeps))) (good', es, later) = (
      good',
      inr (x, y, fs, Acts-trans hs es, (own, λ r apart known. later r (keeps r apart known))),
    )

  pub quiet-Between :
      (gs : List (List (S → S))) (s s' : S)
      → IsShared Valid request (record { state = s; others = gs })
      → Valid s'
      → SameRequests request s s'
      → Between (record { state = s; others = gs }) (record { state = s'; others = gs })
  quiet-Between gs s s' (v, polite, few) v' same = (
    (v', polite, few),
    and_then none_yet (quiet gs s s' v' same),
    λ r (q, n, held, later, bound). (q, n, same r.id ∙ held, later, bound),
  )

  other-Between :
      (f : S → S) (fs : List (S → S)) (gs : List (List (S → S))) (s : S)
      → IsShared Valid request (record { state = s; others = (f ∷ fs) ∷ gs })
      → Between
          (record { state = s; others = (f ∷ fs) ∷ gs })
          (record { state = f s; others = fs ∷ gs })
  other-Between f fs gs s (v, ((one, rest), polite), few) = (
    ((one s v).0, (rest, polite), omega arith),
    and_then none_yet (other f fs gs s),
    λ r (q, n, held, later, bound). elim ((one s v).1 r.id q held) [
      | inl same ↦ (q, n, same, later, omega arith)
      | inr (q', now_, bumped) ↦ (q', suc n, now_, IsLater-next r q q' n later bumped, omega arith)
    ],
  )

  in_order-Between :
      (fs : List (S → S)) (gs : List (List (S → S))) (s : S)
      → IsShared Valid request (record { state = s; others = fs ∷ gs })
      → Between
          (record { state = s; others = fs ∷ gs })
          (record { state = in_order fs s; others = gs })
  in_order-Between [] gs s (v, polite, few) = (
    (v, polite.1, omega arith),
    and_then none_yet (own_turn gs s),
    λ r (q, n, held, later, bound). (q, n, held, later, omega arith),
  )
  in_order-Between (f ∷ fs) gs s v =
      let b = other-Between f fs gs s v in Between-trans _ _ _ b (in_order-Between fs gs (f s) b.0)

  settled-Between :
      (s : S) (gs : List (List (S → S)))
      → IsShared Valid request (record { state = s; others = gs })
      → Between (record { state = s; others = gs }) (settled s gs)
  settled-Between s [] v = Between-refl _ v
  settled-Between s (fs ∷ gs) v = in_order-Between fs gs s v

  pub settle-Between : (t : Shared S) → IsShared Valid request t → Between t (settle t)
  settle-Between t v = settled-Between t.state t.others v
