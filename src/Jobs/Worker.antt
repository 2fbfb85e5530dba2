-- ===== src/Jobs/Worker.antt =====
-- internal/jobs/worker.go. A pass reminds and then executes; an error of either is logged and
-- dropped. Tracing is left out, and `Start` is a loop over what its `select` receives.
pub mod Passes
pub mod Among
use review_workflow.Base.{ℕ, Bool, String, Option, List, [], ◌∷◌, if◌then◌else◌}
use review_workflow.Base.Int.{ℤ, pos, leb_ℤ}
use review_workflow.Domain.{Duration}
use review_workflow.Application.Errors.{Error, Result, ok, err}
use review_workflow.Application.Monad.{Service, M, ◌>>=◌, ◌>>◌, pure, attempt}
use review_workflow.Application.Execution.{process_due_reminders, process_due_executions}

pub record Worker (S : Type 0) : Type 0 where
  pub service : Service S
  pub poll_interval : Duration
  pub batch_size : ℤ

unfoldable pub new_worker : {S : Type 0} → Service S → Duration → ℤ → Worker S
new_worker service poll_interval batch_size = record {
  service = service;
  poll_interval = poll_interval;
  batch_size = if leb_ℤ batch_size (pos 0) then pos 25 else batch_size;
}

-- What `w.logger.Error` is called with.
pub data Logged : Type 0 where
  reminder_pass_failed execution_pass_failed : Error → Logged

unfoldable pub log_error : (Error → Logged) → Result (Unit {0}) → List Logged
log_error entry (ok _) = []
log_error entry (err e) = entry e ∷ []

-- What the `select` of `Start` receives.
pub data Event : Type 0 where
  tick cancelled : Event

-- Where a call of `Start` has come to: it still waits in its `select` when all events that arrive
-- have been received, it has returned, or it has panicked, as `time.NewTicker` does on an interval
-- that is not positive.
pub data Ending : Type 0 where
  waiting returned panicked : Ending

module _ {S : Type 0} (worker : Worker S) where
  -- One pass, with what it logs.
  unfoldable pub run : M S (List Logged × List Logged)
  unfolding log_error
  run = do
    reminded ← attempt (process_due_reminders worker.service worker.batch_size)
    performed ← attempt (process_due_executions worker.service worker.batch_size)
    pure (log_error reminder_pass_failed reminded, log_error execution_pass_failed performed)

  -- The loop of `Start` after its first pass.
  unfoldable pub loop : List Event → M S Ending
  loop [] = pure waiting
  loop (cancelled ∷ events) = pure returned
  loop (tick ∷ events) = run >>= λ _. loop events

  unfoldable pub start : List Event → M S Ending
  unfolding loop
  start events =
      if leb_ℤ worker.poll_interval (pos 0) then pure panicked else (run >>= λ _. loop events)
