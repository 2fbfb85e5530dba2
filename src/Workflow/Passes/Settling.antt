-- ===== src/Workflow/Passes/Settling.antt =====
-- Repeated execution passes over the memory store: the retries of a request come to an end.
use mathlib.Core.Option.{some-injective}
use review_workflow.Base.{
  ℕ, suc, ◌+◌, ◌≤◌, ◌<◌, ◌≡◌, ◌≢◌, ◌⊎◌, inl, inr, refl, sym, ap, ◌∙◌, Bool, Bool-cases, true, false,
  none, some, String, arith, lookup, values,
}
use mathlib.Core.Path.{subst}
use review_workflow.Base.Int.{ℤ, pos, ◌<ℤ◌, leb_ℤ, incr, incr_exact}
use review_workflow.Domain.{Time, Request, executed, execution_failed}
use review_workflow.Repository.Memory.{Memory, select}
use review_workflow.Repository.Memory.Listing.{IsMap-keyed}
use review_workflow.Application.Monad.{Service, World}
use review_workflow.Application.Execution.{
  process_due_executions, finish, succeeded, failure, next_attempt,
}
use review_workflow.Workflow.{on_memory}
use review_workflow.Workflow.Consistent.{IsConsistent, Effects-IsConsistent}
use review_workflow.Workflow.Passes.{process_due_executions-Effects}
use review_workflow.Workflow.Passes.Taken.{
  HasRoom, due, pass, IsReached, due-true, due-false, due-HasOutcome,
  process_due_executions_elsewhere,
}

-- A request after its last execution: executed, or failed as often as the bound allows.
abbrev pub Settled : ℤ → Request → Type 0
Settled max r =
    (r.next_execution_at ≡ none)
    × ((r.status ≡ executed) ⊎ ((r.status ≡ execution_failed) × (r.execution_attempts ≡ max)))

-- Settled, or scheduled with at most `n` attempts left.
abbrev Settling : ℕ → ℕ → Request → Type 0
Settling max n r =
    Settled (pos max) r
    ⊎ ((a : ℕ) × (r.execution_attempts ≡ pos a)
        × (a < max)
        × (max ≤ a + n)
        × (r.next_execution_at ≢ none))

finish-Settling :
    (max n a : ℕ) (base : ℤ) (at : Time) (success : Bool) (message : String) (r : Request)
    → max < 0x8000000000000000
    → r.execution_attempts ≡ pos a
    → a < max
    → max ≤ a + suc n
    → Settling max n (finish (pos max) base at success message r)
unfolding finish next_attempt
finish-Settling max n a base at true message r word tried below left = inl (refl, inl refl)
finish-Settling max n a base at false message r word tried below left =
    let one_more : incr r.execution_attempts ≡ pos (a + 1) =
      ap incr tried ∙ incr_exact a (omega arith) in
    elim (Bool-cases (leb_ℤ (pos max) (pos (a + 1)))) [
      | inl last ↦ inl (rw (one_more, last) refl, inr (refl, one_more ∙ ap pos (ground arith)))
      | inr more ↦ inr (a + 1, one_more, ground arith, omega arith, rw (one_more, more) (λ e. cc))
    ]

module _ (svc : Service Memory) (limit : ℤ) (k : String) where
  -- Some readings of the clock later.
  abbrev pub wait : ℕ → World Memory → World Memory
  wait n w = record w { ticks = w.ticks + n }

  -- A pass that has room for what is due, and for which the time of the request has come.
  abbrev pub IsOnTime : World Memory → Type 0
  IsOnTime w =
      HasRoom limit (select (due svc limit k w) (values w.state.requests))
      × ((r : Request) × (lookup k w.state.requests ≡ some r)
          × IsReached svc limit k r.next_execution_at (svc.runtime.clock w.ticks))

  -- `n` passes, each some while after the one before.
  pub data Passes : ℕ → World Memory → World Memory → Type 0 where
    no_more : {w : World Memory} → Passes 0 w w
    pass_after :
        {n : ℕ} {w w' : World Memory} (waited : ℕ)
        → IsOnTime (wait waited w)
        → Passes n (process_due_executions (on_memory svc) limit (wait waited w)).1 w'
        → Passes (suc n) w w'

  module _ (max : ℕ) (bound : svc.execution_max_attempts ≡ pos max)
      (positive : pos 0 <ℤ svc.execution_max_attempts) (word : max < 0x8000000000000000) where
    -- What is stored under `k`.
    abbrev Holds : ℕ → World Memory → Type 0
    Holds n w = (r : Request) × (lookup k w.state.requests ≡ some r) × Settling max n r

    pass-scheduled :
        (n a : ℕ) (w : World Memory) (r : Request)
        → IsConsistent svc.execution_max_attempts w.state
        → lookup k w.state.requests ≡ some r
        → r.execution_attempts ≡ pos a
        → a < max
        → max ≤ a + suc n
        → r.next_execution_at ≢ none
        → IsReached svc limit k r.next_execution_at (svc.runtime.clock w.ticks)
        → HasRoom limit (select (due svc limit k w) (values w.state.requests))
        → Holds n (pass svc limit k w)
    pass-scheduled n a w r i stored tried below left scheduled reached room =
        let (status, _) = (i.sound k r stored).scheduled scheduled in
        let ready = due-true svc limit k r.next_execution_at w r refl scheduled reached status in
        let (t, outcome) = due-HasOutcome svc limit k w r i.map stored ready room in
        let message = svc.executor.execute r in
        (
          finish svc.execution_max_attempts svc.execution_retry_base t (succeeded message)
              (failure message) r,
          ap (λ j. lookup j (pass svc limit k w).state.requests)
                (sym (IsMap-keyed w.state.requests i.map k r stored))
              ∙ outcome,
          subst
              (λ m.
                Settling max n
                  (finish m svc.execution_retry_base t (succeeded message) (failure message) r))
              (sym bound)
              (finish-Settling max n a svc.execution_retry_base t (succeeded message)
                (failure message) r word tried below left),
        )

    pass-Holds :
        (n : ℕ) (w : World Memory)
        → IsConsistent svc.execution_max_attempts w.state
        → Holds (suc n) w
        → IsOnTime w
        → Holds n (pass svc limit k w)
    pass-Holds n w i (r, stored, inl (unscheduled, closed)) on_time = (
      r,
      process_due_executions_elsewhere svc limit k w r i.map stored
          (due-false svc limit k w r unscheduled),
      inl (unscheduled, closed),
    )
    pass-Holds n w i (r, stored, inr (a, tried, below, left, scheduled))
          (room, (q, found, reached)) =
        let e : q ≡ r = some-injective q r (sym found ∙ stored) in
        pass-scheduled n a w r i stored tried below left scheduled
          (subst (λ x. IsReached svc limit k x.next_execution_at (svc.runtime.clock w.ticks)) e
            reached)
          room

    Holds-Settled :
        (w : World Memory)
        → Holds 0 w
        → (r' : Request) × (lookup k w.state.requests ≡ some r') × Settled (pos max) r'
    Holds-Settled w (r, stored, inl settled) = (r, stored, settled)
    Holds-Settled w (r, stored, inr (a, tried, below, left, scheduled)) =
        absurd (omega (arith, below, left))

    Passes-Settled :
        (n : ℕ) (w w' : World Memory)
        → IsConsistent svc.execution_max_attempts w.state
        → Holds n w
        → Passes n w w'
        → (r' : Request) × (lookup k w'.state.requests ≡ some r') × Settled (pos max) r'
    Passes-Settled n w w' i holds no_more = Holds-Settled w holds
    Passes-Settled (suc n) w w' i holds (pass_after waited on_time later) =
        let v = wait waited w in
        Passes-Settled n (pass svc limit k v) w'
          (Effects-IsConsistent svc positive (process_due_executions-Effects svc limit v i.map) i)
          (pass-Holds n v i holds on_time) later

    -- A scheduled request of consistent data comes to rest: after as many execution passes as it
    -- has attempts left, each with room for what is due and not before the time of the request, it
    -- is executed, or it has failed as often as the bound on attempts allows; then nothing is
    -- scheduled for it. The bound is positive and a 64-bit integer.
    pub process_due_executions-Settled :
        (n a : ℕ) (w w' : World Memory) (r : Request)
        → IsConsistent svc.execution_max_attempts w.state
        → lookup k w.state.requests ≡ some r
        → r.next_execution_at ≢ none
        → r.execution_attempts ≡ pos a
        → max ≤ a + n
        → Passes n w w'
        → (r' : Request) × (lookup k w'.state.requests ≡ some r') × Settled (pos max) r'
    process_due_executions-Settled n a w w' r i stored scheduled tried left passes =
        let (_, below) = (i.sound k r stored).scheduled scheduled in
        let below' : pos a <ℤ pos max =
          subst (λ m. pos a <ℤ m) bound
            (subst (λ x. x <ℤ svc.execution_max_attempts) tried below) in
        Passes-Settled n w w' i (r, stored, inr (a, tried, omega (arith, below'), left, scheduled))
          passes
