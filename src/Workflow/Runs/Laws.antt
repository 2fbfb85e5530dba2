-- ===== src/Workflow/Runs/Laws.antt =====
-- Sequences of calls on consistent data and on an empty store.
use review_workflow.Base.{
  ◌≡◌, ◌≢◌, refl, true, none, some, String, List, [], ◌∷◌, lookup, length, Any, if◌then◌else◌,
}
use review_workflow.Base.Int.{pos, incr, wrap64, ◌<ℤ◌}
use review_workflow.Domain.{Time, Request, is_draft}
use review_workflow.Repository.Memory.{Memory, new_store, slice_at}
use review_workflow.Application.Monad.{Service, World}
use review_workflow.Workflow.{EffectsOf, done, Effects-trans, Decides}
use review_workflow.Workflow.Sound.{is_due, is_released}
use review_workflow.Workflow.Consistent.{IsConsistent, Effects-IsConsistent}
use review_workflow.Workflow.Runs.{Call, perform, perform-Effects, run, AllFresh}

module _ (svc : Service Memory) (zero_time : Time)
    (positive : pos 0 <ℤ svc.execution_max_attempts) where
  -- Whatever calls clients and the worker make on consistent data, in whatever order, the data is
  -- led from one state to the next by effects of the workflow alone, if no identifier is drawn
  -- that is in use and the bound on attempts is positive.
  pub run-Effects :
      (cs : List Call) (w : World Memory)
      → IsConsistent svc.execution_max_attempts w.state
      → AllFresh svc zero_time cs w
      → EffectsOf svc w.state (run svc zero_time cs w).state
  unfolding run
  run-Effects [] w i _ = done
  run-Effects (c ∷ cs) w i (fresh, later) =
      let first = perform-Effects svc zero_time c w i fresh in
      Effects-trans svc first (
        run-Effects cs (perform svc zero_time c w) (Effects-IsConsistent svc positive first i)
          later)

  pub empty-IsConsistent : IsConsistent svc.execution_max_attempts new_store
  unfolding new_store lookup
  empty-IsConsistent = record { map = tt; sound = λ k r e. cc; no_orphans = λ k e. refl }

  module _ (cs : List Call) (w : World Memory) (empty : w.state ≡ new_store)
      (fresh : AllFresh svc zero_time cs w) where
    start-IsConsistent : IsConsistent svc.execution_max_attempts w.state
    start-IsConsistent = rw empty empty-IsConsistent

    -- Every sequence of calls on an empty store leaves consistent data, if no identifier is drawn
    -- that is in use and the bound on attempts is positive.
    pub run-IsConsistent : IsConsistent svc.execution_max_attempts (run svc zero_time cs w).state
    run-IsConsistent =
        Effects-IsConsistent svc positive (run-Effects cs w start-IsConsistent fresh)
          start-IsConsistent

    module _ (k : String) (r : Request)
        (stored : lookup k (run svc zero_time cs w).state.requests ≡ some r) where
      -- After any calls on an empty store, the audit trail of a stored request has as many entries,
      -- up to the wrap of a 64-bit integer, as the request's version, and one more once the request
      -- is no draft; provided that no identifier was drawn that was in use and the bound on
      -- attempts is positive.
      pub audit_counts_versions :
          wrap64 (pos (length (slice_at k (run svc zero_time cs w).state.audit)))
          ≡ (if is_draft r.status then r.version else incr r.version)
      audit_counts_versions = (run-IsConsistent.sound k r stored).counted

      -- After any calls on an empty store, a request with a time of execution is approved or has
      -- failed before, and has been tried fewer times than the bound; provided that no identifier
      -- was drawn that was in use and the bound on attempts is positive.
      pub scheduled_below_bound :
          r.next_execution_at ≢ none
          → (is_due r.status ≡ true) × (r.execution_attempts <ℤ svc.execution_max_attempts)
      scheduled_below_bound = (run-IsConsistent.sound k r stored).scheduled

      -- After any calls on an empty store, the audit trail of an approved, executed or failed
      -- request has an approval by an admin or by its assigned reviewer, who is not its requester;
      -- provided that no identifier was drawn that was in use and the bound on attempts is
      -- positive.
      pub released_was_approved :
          is_released r.status ≡ true
          → Any
              (Decides "approved" r.requester_id r.assigned_reviewer_id)
              (slice_at k (run svc zero_time cs w).state.audit)
      released_was_approved = (run-IsConsistent.sound k r stored).vetted
