-- ===== src/Workflow/Passes/Outcome.antt =====
-- The outcome of the worker's passes over the memory store.
use review_workflow.Base.{
  ◌≡◌, ◌≢◌, refl, sym, ap, ◌∙◌, true, Bool, some, String, List, [], ◌∷◌, lookup, lookup-insert_self,
  All, arith, suc, values, ◌||◌,
}
use mathlib.Core.Path.{subst}
use review_workflow.Base.Int.{ℤ}
use review_workflow.Domain.{Time, Request, is_approved, is_execution_failed}
use review_workflow.Repository.Memory.{
  Memory, ready_for_execution, select, list_requests_needing_reminder,
  list_requests_ready_for_execution,
}
use review_workflow.Repository.Memory.Query.{first, collect-first}
use review_workflow.Repository.Memory.Listing.{IsMap, Listed, Listed-elsewhere, Listed-collect}
use review_workflow.Application.Errors.{ok}
use review_workflow.Application.Helpers.{system_actor}
use review_workflow.Application.Monad.{Service, World, >>-ok}
use review_workflow.Application.Execution.{
  finish, remind_one, remind_all, execute_one, execute_all, process_due_reminders,
  process_due_executions, succeeded, failure,
}
use review_workflow.Workflow.{on_memory}
use review_workflow.Workflow.Execution.{apply_execution_result-ready}
use review_workflow.Workflow.Passes.{
  remind_one-total, execute_one-total, execute_one-state, execute_one-elsewhere,
}

-- Stored with the outcome of one execution, at some time.
abbrev pub HasOutcome : Service Memory → Memory → Request → Type 0
HasOutcome svc s r =
    (t : Time) × (lookup r.id s.requests
      ≡ some (
          finish svc.execution_max_attempts svc.execution_retry_base t
            (succeeded (svc.executor.execute r)) (failure (svc.executor.execute r)) r))

module _ (svc : Service Memory) (at : Time) where
  remind_all-total :
      (rs : List Request) (w : World Memory) → (remind_all (on_memory svc) at rs w).0 ≡ ok tt
  unfolding remind_all
  remind_all-total [] w = refl
  remind_all-total (r ∷ rs) w =
      rw
        (>>-ok (remind_one (on_memory svc) at r) (remind_all (on_memory svc) at rs) w
          (remind_one-total svc at r w))
        (remind_all-total rs (remind_one (on_memory svc) at r w).1)

  execute_all-total :
      (rs : List Request) (w : World Memory) → (execute_all (on_memory svc) at rs w).0 ≡ ok tt
  unfolding execute_all
  execute_all-total [] w = refl
  execute_all-total (r ∷ rs) w =
      rw
        (>>-ok (execute_one (on_memory svc) at r) (execute_all (on_memory svc) at rs) w
          (execute_one-total svc at r w))
        (execute_all-total rs (execute_one (on_memory svc) at r w).1)

  execute_one-HasOutcome :
      (r : Request) (w : World Memory)
      → lookup r.id w.state.requests ≡ some r
      → (is_approved r.status || is_execution_failed r.status) ≡ true
      → HasOutcome svc (execute_one (on_memory svc) at r w).1.state r
  execute_one-HasOutcome r w stored ready =
      let outcome = svc.executor.execute r in
      let changed =
        apply_execution_result-ready svc r system_actor (succeeded outcome) (failure outcome)
          (record w { draws = suc w.draws }) stored ready in
      (
        svc.runtime.clock w.ticks,
        ap (lookup r.id) ((execute_one-state svc at r w).0 ∙ changed)
            ∙ lookup-insert_self r.id _ w.state.requests,
      )

  -- The requests that are still to come are listed as before.
  execute_one-Listed :
      (p : Request → Bool) (r : Request) (rs : List Request) (w : World Memory)
      → Listed p w.state.requests (r ∷ rs)
      → Listed p (execute_one (on_memory svc) at r w).1.state.requests rs
  execute_one-Listed p r rs w (stored, due, own, others) =
      Listed-elsewhere p r.id w.state.requests (execute_one (on_memory svc) at r w).1.state.requests
        rs own (execute_one-elsewhere svc at r w stored) others

  execute_all-cons :
      (r : Request) (rs : List Request) (w : World Memory)
      → execute_all (on_memory svc) at (r ∷ rs) w
        ≡ execute_all (on_memory svc) at rs (execute_one (on_memory svc) at r w).1
  unfolding execute_all
  execute_all-cons r rs w =
      >>-ok (execute_one (on_memory svc) at r) (execute_all (on_memory svc) at rs) w
        (execute_one-total svc at r w)

  pub execute_all-elsewhere :
      (p : Request → Bool) (rs : List Request) (w : World Memory) (k : String)
      → Listed p w.state.requests rs
      → All (λ q. k ≢ q.id) rs
      → lookup k (execute_all (on_memory svc) at rs w).1.state.requests ≡ lookup k w.state.requests
  unfolding execute_all
  execute_all-elsewhere p [] w k h apart = refl
  execute_all-elsewhere p (r ∷ rs) w k h apart = rw (execute_all-cons r rs w) (
      execute_all-elsewhere p rs (execute_one (on_memory svc) at r w).1 k
        (execute_one-Listed p r rs w h) apart.1
      ∙ execute_one-elsewhere svc at r w h.0 k (λ e. apart.0 (sym e)))

  execute_all-HasOutcome :
      (p : Request → Bool) (rs : List Request) (w : World Memory)
      → ((r : Request) → p r ≡ true → (is_approved r.status || is_execution_failed r.status) ≡ true)
      → Listed p w.state.requests rs
      → All (HasOutcome svc (execute_all (on_memory svc) at rs w).1.state) rs
  execute_all-HasOutcome p [] w ready h = tt
  execute_all-HasOutcome p (r ∷ rs) w ready h =
      let w' = (execute_one (on_memory svc) at r w).1 in
      let later = execute_one-Listed p r rs w h in
      let (t, first) = execute_one-HasOutcome r w h.0 (ready r h.1) in
      subst (λ e. All (HasOutcome svc e.1.state) (r ∷ rs)) (sym (execute_all-cons r rs w))
        (
          (t, execute_all-elsewhere p rs w' r.id later h.2 ∙ first),
          execute_all-HasOutcome p rs w' ready later,
        )

ready_for_execution-status :
    (at : Time) (r : Request)
    → ready_for_execution at r ≡ true
    → (is_approved r.status || is_execution_failed r.status) ≡ true
unfolding ready_for_execution
ready_for_execution-status at r h = ground arith

module _ (svc : Service Memory) (limit : ℤ) (w : World Memory) where
  -- Over the memory store, neither pass of the worker ends in an error.
  pub passes-total :
      ((process_due_reminders (on_memory svc) limit w).0 ≡ ok tt)
      × ((process_due_executions (on_memory svc) limit w).0 ≡ ok tt)
  unfolding process_due_reminders process_due_executions list_requests_needing_reminder
      list_requests_ready_for_execution
  passes-total = (remind_all-total svc _ _ _, execute_all-total svc _ _ _)

  -- Where every request is stored under its own identifier and no key twice, an execution pass
  -- gives each of the first `limit` stored requests that are due, or all of them where the limit is
  -- not positive, the outcome of one execution.
  pub process_due_executions-HasOutcome :
      IsMap w.state.requests
      → let due = ready_for_execution (svc.runtime.clock w.ticks) in
        All
          (HasOutcome svc (process_due_executions (on_memory svc) limit w).1.state)
          (first limit (select due (values w.state.requests)))
  unfolding process_due_executions list_requests_ready_for_execution
  process_due_executions-HasOutcome map =
      let due = ready_for_execution (svc.runtime.clock w.ticks) in
      rw (← collect-first due limit (values w.state.requests)) (
        execute_all-HasOutcome svc _ due _ _ (ready_for_execution-status _)
          (Listed-collect due limit w.state.requests map))
