-- ===== src/Jobs/Worker/Passes.antt =====
-- The worker over the memory store, as cmd/server/main.go starts it.
use review_workflow.Base.{
  ◌≡◌, refl, ◌∙◌, List, [], ◌∷◌, ap, arith, Bool, true, false, All, Any, here, there, ◌⊎◌, inl, inr,
  if◌then◌else◌,
}
use review_workflow.Base.Int.{ℤ, ◌≤ℤ◌, pos, ◌<ℤ◌}
use review_workflow.Domain.{Duration}
use review_workflow.Repository.Memory.{Memory}
use review_workflow.Application.Errors.{ok}
use review_workflow.Application.Monad.{Service, World, >>=-ok}
use review_workflow.Application.Execution.{process_due_reminders}
use review_workflow.Jobs.Worker.{
  waiting, returned, Worker, new_worker, run, Event, tick, cancelled, loop, start, log_error,
}
use review_workflow.Workflow.{on_memory}
use review_workflow.Workflow.Passes.Outcome.{passes-total}

abbrev has_cancelled : List Event → Bool
has_cancelled [] = false
has_cancelled (cancelled ∷ events) = true
has_cancelled (tick ∷ events) = has_cancelled events

module _ (svc : Service Memory) (interval : Duration) (batch : ℤ) where
  abbrev pub worker : Worker Memory
  worker = new_worker (on_memory svc) interval batch

  run-logs_nothing : (w : World Memory) → (run worker w).0 ≡ ok ([], [])
  unfolding run log_error new_worker
  run-logs_nothing w =
      let (reminded, _) = passes-total svc worker.batch_size w in
      let w' = (process_due_reminders (on_memory svc) worker.batch_size w).1 in
      let (_, performed) = passes-total svc worker.batch_size w' in rw (reminded, performed) (refl)

  loop-ends :
      (events : List Event) (w : World Memory)
      → (loop worker events w).0 ≡ ok (if has_cancelled events then returned else waiting)
  unfolding loop
  loop-ends [] w = refl
  loop-ends (cancelled ∷ events) w = refl
  loop-ends (tick ∷ events) w =
      rw (>>=-ok (run worker) (λ _. loop worker events) w (run-logs_nothing w))
        (loop-ends events (run worker w).1)

  ends-either :
      (events : List Event)
      → (Any (λ e. e ≡ cancelled) events × (has_cancelled events ≡ true))
        ⊎ (All (λ e. e ≡ tick) events × (has_cancelled events ≡ false))
  ends-either [] = inr (tt, refl)
  ends-either (cancelled ∷ events) = inl (here refl, refl)
  ends-either (tick ∷ events) = elim (ends-either events) [
    | inl (a, e) ↦ inl (there a, e)
    | inr (h, e) ↦ inr ((refl, h), e)
  ]

  started-ends :
      (events : List Event) (w : World Memory)
      → pos 0 <ℤ interval
      → (start worker events w).0 ≡ ok (if has_cancelled events then returned else waiting)
  unfolding start new_worker
  started-ends events w positive =
      let started =
        ap (λ x. x.0) (>>=-ok (run worker) (λ _. loop worker events) w (run-logs_nothing w))
        ∙ loop-ends events (run worker w).1 in
      ground (arith, started)

  started-either :
      (events : List Event) (w : World Memory)
      → pos 0 <ℤ interval
      → (Any (λ e. e ≡ cancelled) events × ((start worker events w).0 ≡ ok returned))
        ⊎ (All (λ e. e ≡ tick) events × ((start worker events w).0 ≡ ok waiting))
  started-either events w positive = elim (ends-either events) [
    | inl (a, e) ↦ inl (a, rw (started-ends events w positive, e) refl)
    | inr (h, e) ↦ inr (h, rw (started-ends events w positive, e) refl)
  ]

  -- For a new worker with a positive interval, every pass ends without an error and logs nothing,
  -- and the batches hold at least one request; `Start` returns if the cancellation is among the
  -- events that arrive, and otherwise, after as many ticks, it still waits.
  pub start-runs :
      (events : List Event) (w : World Memory)
      → pos 0 <ℤ interval
      → (pos 1 ≤ℤ worker.batch_size)
        × ((run worker w).0 ≡ ok ([], []))
        × ((Any (λ e. e ≡ cancelled) events × ((start worker events w).0 ≡ ok returned))
            ⊎ (All (λ e. e ≡ tick) events × ((start worker events w).0 ≡ ok waiting)))
  unfolding new_worker
  start-runs events w positive =
      (ground arith, run-logs_nothing w, started-either events w positive)
