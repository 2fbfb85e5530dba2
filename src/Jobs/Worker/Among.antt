-- ===== src/Jobs/Worker/Among.antt =====
-- The worker's `Start` on a store that it shares with the clients of the service.
use review_workflow.Base.{
  Bool, true, false, ◌⊎◌, inl, inr, String, Option, List, [], ◌∷◌, if◌then◌else◌,
}
use review_workflow.Base.Int.{ℤ, pos, leb_ℤ}
use review_workflow.Domain.{Duration, Request}
use review_workflow.Application.Errors.{Result, ok, err}
use review_workflow.Application.Monad.{Service, World, M, ◌>>=◌, pure}
use review_workflow.Application.Execution.{process_due_reminders}
use review_workflow.Application.Contract.{Contract}
use review_workflow.Application.Contract.Worker.{WorkerExecution, WorkerReminder}
use review_workflow.Application.Contract.Among.{
  Shared, IsShared, Course, unmoved, waiting, changing, among_others,
}
use review_workflow.Application.Contract.Among.Passes.{
  Led, Course-trans, executions-Led, reminders-Led,
}
use review_workflow.Jobs.Worker.{Worker, Event, tick, cancelled, panicked, run, loop, start}

module _ {S : Type 0} (svc : Service S) {Valid : S → Type 0} {request : S → String → Option Request}
    (c : Contract svc.store Valid request) where
  abbrev pub WorkerChange : Request → Request → Type 0
  WorkerChange r r' = WorkerExecution svc r r' ⊎ WorkerReminder r r'

  pub Course-mono :
      (P Q : Request → Request → Type 0) {t u : Shared S}
      → ((r r' : Request) → P r r' → Q r r')
      → Course Valid request P t u
      → Course Valid request Q t u
  Course-mono P Q f unmoved = unmoved
  Course-mono P Q f (waiting g a) = waiting (Course-mono P Q f g) a
  Course-mono P Q f (changing g own) = changing (Course-mono P Q f g) (record {
    old = own.old;
    new = own.new;
    held = own.held;
    change = f own.old own.new own.change;
    changed = own.changed;
    valid = own.valid;
    same_others = own.same_others;
  })

  module _ (poll_interval : Duration) (batch_size : ℤ) where
    abbrev pub worker : Worker (Shared S)
    worker = record {
      service = among_others svc;
      poll_interval = poll_interval;
      batch_size = batch_size;
    }

    run-Led :
        (w : World (Shared S))
        → IsShared Valid request w.state
        → Led Valid request WorkerChange w.state (run worker w).1.state
    unfolding run
    run-Led w v =
        let w' = (process_due_reminders (among_others svc) batch_size w).1 in
        let (v', reminded) = reminders-Led svc c batch_size w v in
        let (v'', executed) = executions-Led svc c batch_size w' v' in
        (
          v'',
          Course-trans Valid request WorkerChange
              (Course-mono WorkerReminder WorkerChange (λ r r' p. inr p) reminded)
              (Course-mono (WorkerExecution svc) WorkerChange (λ r r' p. inl p) executed),
        )

    after-Led :
        {A B : Type 0} (f : A → M (Shared S) B) (t : Shared S) (x : Result A × World (Shared S))
        → Led Valid request WorkerChange t x.1.state
        → ((a : A) (w : World (Shared S))
            → IsShared Valid request w.state
            → Led Valid request WorkerChange w.state (f a w).1.state)
        → Led Valid request WorkerChange t (((λ _. x) >>= f) x.1).1.state
    after-Led f t (ok a, w) (v, first) rest =
        let (v', later) = rest a w v in (v', Course-trans Valid request WorkerChange first later)
    after-Led f t (err e, w) led rest = led

    loop-Led :
        (events : List Event) (w : World (Shared S))
        → IsShared Valid request w.state
        → Led Valid request WorkerChange w.state (loop worker events w).1.state
    unfolding loop
    loop-Led [] w v = (v, unmoved)
    loop-Led (cancelled ∷ events) w v = (v, unmoved)
    loop-Led (tick ∷ events) w v =
        after-Led (λ _. loop worker events) w.state (run worker w) (run-Led w v)
          (λ _ w' v'. loop-Led events w' v')

    started-Led :
        (stopped : Bool) (events : List Event) (w : World (Shared S))
        → IsShared Valid request w.state
        → Led Valid request WorkerChange w.state
            ((if stopped then pure panicked else (run worker >>= λ _. loop worker events))
              w).1.state
    started-Led true events w v = (v, unmoved)
    started-Led false events w v =
        after-Led (λ _. loop worker events) w.state (run worker w) (run-Led w v)
          (λ _ w' v'. loop-Led events w' v')

    -- The worker shares any store with the contract with polite others, who take fewer than 2 ^ 64
    -- steps in all, before any of the worker's calls of the store. From valid data, whatever events
    -- `Start` receives, the data stays valid, and each change of the worker's own executes a
    -- request that is approved or has failed at that time, as the executor decides on it, or counts
    -- a reminder of a request that is pending at that time; the requester stays, and the version
    -- goes up by one.
    pub start-Led :
        (events : List Event) (w : World (Shared S))
        → IsShared Valid request w.state
        → Led Valid request WorkerChange w.state (start worker events w).1.state
    unfolding start
    start-Led events w v = started-Led (leb_ℤ poll_interval (pos 0)) events w v
