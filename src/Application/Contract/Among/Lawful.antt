-- ===== src/Application/Contract/Among/Lawful.antt =====
-- Calls of the service, and passes of the worker, that are taken as one step each.
use review_workflow.Base.{refl, ◌≡◌, ◌⊎◌, sym, ◌∙◌, inl, inr, Bool, String, Option, some, ℕ}
use mathlib.Core.Path.{subst}
use review_workflow.Application.Helpers.{system_actor}
use mathlib.Core.Option.{some-injective}
use review_workflow.Base.Int.{ℤ}
use review_workflow.Domain.{Time, Actor, Request}
use review_workflow.Application.Interfaces.{Store}
use review_workflow.Application.Monad.{Service, World, M}
use review_workflow.Application.Requests.{submit_request}
use review_workflow.Application.Review.{approve_request, reject_request}
use review_workflow.Application.Execution.{
  record_execution_result, process_due_executions, process_due_reminders,
}
use review_workflow.Application.Contract.{Contract}
use review_workflow.Application.Contract.Moved.{Moved}
use review_workflow.Application.Contract.Calls.{calls-Moved}
use review_workflow.Application.Contract.Passes.{passes-Moved}
use review_workflow.Application.Contract.Among.History.{
  Transition, submission, approval, rejection, execution, reminder, IsLawful,
}

module _ {S : Type 0} {store : Store S} {Valid : S → Type 0} {request : S → String → Option Request}
    (c : Contract store Valid request) (By : Actor → Type 0) where
  Moved-lawful :
      (P : Request → Request → Type 0) (s s' : S)
      → ((r r' : Request) → P r r' → Transition By r r')
      → Moved c P s s'
      → Valid s'
        × ((k : String) (r : Request)
            → request s k ≡ some r
            → (q : Request) × (request s' k ≡ some q) × ((q ≡ r) ⊎ Transition By r q))
  Moved-lawful P s s' transition (v, m) = (
    v,
    λ k r held. elim (m k) [
      | inl same ↦ (r, same ∙ held, inl refl)
      | inr (o, n, was, now_, p) ↦
          let e : o ≡ r = some-injective o r (sym was ∙ held) in
          (n, now_, inr (subst (λ x. Transition By x n) e (transition o n p)))
    ],
  )

module _ {S : Type 0} (svc : Service S) (zero_time : Time) {Valid : S → Type 0}
    {request : S → String → Option Request} (c : Contract svc.store Valid request)
    (By : Actor → Type 0) (ticks draws : ℕ) where
  -- What an action makes of the data.
  abbrev pub step_of : {A : Type 0} → M S A → S → S
  step_of m s = (m (record { state = s; ticks = ticks; draws = draws })).1.state

  -- Over any store with the contract, a submission, a decision, an execution result or a pass of
  -- the worker is lawful when it is taken as one step: it keeps the data valid, and every request
  -- is held afterwards as it was or after one transition of the workflow, made by the actor of the
  -- call.
  pub calls-IsLawful :
      (actor : Actor) (id key comment : String) (success : Bool) (limit : ℤ)
      → By actor
      → By system_actor
      → IsLawful Valid request By (step_of (submit_request svc actor id key))
        × IsLawful Valid request By (step_of (approve_request svc zero_time actor id key comment))
        × IsLawful Valid request By (step_of (reject_request svc zero_time actor id key comment))
        × IsLawful Valid request By (step_of (record_execution_result svc actor id success comment))
        × IsLawful Valid request By (step_of (process_due_executions svc limit))
        × IsLawful Valid request By (step_of (process_due_reminders svc limit))
  calls-IsLawful actor id key comment success limit by own =
      let at : S → World S = λ s. record { state = s; ticks = ticks; draws = draws } in
      let calls = calls-Moved svc zero_time c actor id key comment success in
      let passes = passes-Moved svc c limit in
      (
        λ s v. Moved-lawful c By _ s _ (λ r r' p. submission actor by p.1) (calls (at s) v).0,
        λ s v. Moved-lawful c By _ s _ (λ r r' p. approval actor by p.1) (calls (at s) v).1,
        λ s v. Moved-lawful c By _ s _ (λ r r' p. rejection actor by p.1) (calls (at s) v).2,
        λ s v.
            Moved-lawful c By _ s _ (λ r r' p. execution actor success by p.1) (calls (at s) v).3,
        λ s v.
            Moved-lawful c By _ s _ (λ r r' p. execution system_actor _ own p) (passes (at s) v).0,
        λ s v. Moved-lawful c By _ s _ (λ r r' p. reminder p) (passes (at s) v).1,
      )
