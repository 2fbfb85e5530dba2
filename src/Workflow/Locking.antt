-- ===== src/Workflow/Locking.antt =====
-- The `expectedVersion` of the store's `UpdateRequest`, with other calls between a caller's read and
-- its update.
use review_workflow.Base.{
  ℕ, suc, ◌<◌, ◌≤◌, ◌≡◌, sym, ap, ◌∙◌, inl, inr, none, some, String, String-cases, List, lookup,
  insert, lookup-insert_self, lookup-insert_ne, arith,
}
use mathlib.Core.Option.{some-injective}
use review_workflow.Base.Int.{ℤ, incr, eq_ℤ_iff}
use review_workflow.Domain.{Request, AuditEntry}
use review_workflow.Repository.Memory.{Memory, update_request}
use review_workflow.Application.Contract.Later.{IsLater, IsLater-refl, IsLater-next, IsLater-same}
use review_workflow.Application.Errors.{ok}
use review_workflow.Application.Monad.{Service}
use review_workflow.Workflow.{
  Move, submit, approve, reject, succeed, fail, remind, EffectOf, EffectsOf, Effects, quiet, create,
  move, done, next,
}

-- The number of effects in a chain.
abbrev pub steps : {reviewer : String} {max : ℤ} {s s' : Memory} → Effects reviewer max s s' → ℕ
steps done = 0
steps (next es e) = suc (steps es)

module _ (svc : Service Memory) (r r' : Request) where
  Move-version :
      {es : List AuditEntry}
      → Move svc.default_reviewer_id svc.execution_max_attempts r r' es
      → r'.version ≡ incr r.version
  Move-version (submit _ _ same _ _ _ _ _ _ _ _) = same.version_bumped
  Move-version (approve _ same _ _ _ _ _) = same.identity.version_bumped
  Move-version (reject _ same _ _ _ _ _) = same.identity.version_bumped
  Move-version (succeed _ same _ _ _ _ _) = same.identity.version_bumped
  Move-version (fail _ same _ _ _ _ _) = same.identity.version_bumped
  Move-version (remind _ same _ _ _ _ _) = same.identity.version_bumped

module _ (svc : Service Memory) (k : String) (r : Request) where
  -- What the request under `k` has become, by at most `bound` transitions.
  abbrev Later : Memory → ℕ → Type 0
  Later s bound =
      (q : Request) × (n : ℕ) × (lookup k s.requests ≡ some q) × IsLater r q n × (n ≤ bound)

  Effect-Later :
      {s s' : Memory} (bound : ℕ) → EffectOf svc s s' → Later s bound → Later s' (suc bound)
  Effect-Later bound (quiet same _) (q, n, found, later, few) =
      (q, n, ap (lookup k) same ∙ found, later, omega arith)
  Effect-Later {s} {s'} bound (create p e new absent changed trail) (q, n, found, later, few) =
      elim (String-cases p.id k) [
        | inl here ↦
            let clash : none ≡ some q = sym absent ∙ ap (λ j. lookup j s.requests) here ∙ found in
            cc
        | inr apart ↦ (
          q,
          n,
          ap (lookup k) changed ∙ lookup-insert_ne p.id k p s.requests apart ∙ found,
          later,
          omega arith,
        )
      ]
  Effect-Later {s} {s'} bound (move p p' es m stored changed trail) (q, n, found, later, few) =
      elim (String-cases p.id k) [
        | inl here ↦
            let e : p ≡ q =
              some-injective p q (sym stored ∙ ap (λ j. lookup j s.requests) here ∙ found) in
            (
              p',
              suc n,
              ap (lookup k) changed
                  ∙ ap (λ j. lookup j (insert p.id p' s.requests)) (sym here)
                  ∙ lookup-insert_self p.id p' s.requests,
              IsLater-next r q p' n later (Move-version svc p p' m ∙ ap (λ x. incr x.version) e),
              omega arith,
            )
        | inr apart ↦ (
          q,
          n,
          ap (lookup k) changed ∙ lookup-insert_ne p.id k p' s.requests apart ∙ found,
          later,
          omega arith,
        )
      ]

  Effects-Later :
      {s s' : Memory}
      → (es : EffectsOf svc s s') → lookup k s.requests ≡ some r
      → Later s' (steps es)
  Effects-Later done stored = (r, 0, stored, IsLater-refl r, omega arith)
  Effects-Later (next es e) stored = Effect-Later (steps es) e (Effects-Later es stored)

accepted-version :
    (req q : Request) (expected : ℤ) (s : Memory)
    → lookup req.id s.requests ≡ some q
    → (update_request req expected s).0 ≡ ok tt
    → q.version ≡ expected
unfolding update_request
accepted-version req q expected s found accepted = ground (arith, eq_ℤ_iff q.version expected)

module _ (svc : Service Memory) {s s' : Memory} (es : EffectsOf svc s s')
    (few : steps es < 0x10000000000000000) (r req : Request) where
  -- Between the read of a request and its update, other calls may take effect, fewer than 2 ^ 64 of
  -- them. An update with the version that was read is accepted only if the stored request is still
  -- the one that was read.
  pub update_request-sees_read :
      lookup req.id s.requests ≡ some r
      → (update_request req r.version s').0 ≡ ok tt
      → lookup req.id s'.requests ≡ some r
  update_request-sees_read stored accepted =
      let (q, n, found, later, bound) = Effects-Later svc req.id r es stored in
      let same = accepted-version req q r.version s' found accepted in
      found ∙ ap some (IsLater-same r q n later (omega arith) same)
