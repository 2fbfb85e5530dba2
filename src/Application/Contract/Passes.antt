-- ===== src/Application/Contract/Passes.antt =====
-- The worker's passes over a store with the contract.
use review_workflow.Base.{◌≡◌, refl, String, Option, some, List, [], ◌∷◌, All}
use review_workflow.Base.Int.{ℤ}
use review_workflow.Domain.{Time, Request}
use review_workflow.Application.Errors.{Result, ok, err}
use review_workflow.Application.Interfaces.{Op}
use review_workflow.Application.Monad.{Service, World, M, ◌>>=◌, call, now_utc}
use review_workflow.Application.Execution.{
  process_due_executions, process_due_reminders, execute_all, execute_one, remind_all, remind_one,
}
use review_workflow.Application.Contract.{
  Contract, IsDistinct, IsPending, IsRunnable, ListLaw, Lists, SameRequests,
}
use review_workflow.Application.Contract.Moved.{Moved, Moved-Same, Moved-before}
use review_workflow.Application.Contract.Alone.{alone, AllHeld-Same}
use review_workflow.Application.Contract.Worker.{
  WorkerExecution, WorkerReminder, Does-execute_one, Does-remind_one,
}
use review_workflow.Application.Contract.Chains.{
  AllHeld, MovedIn, MovedIn-Moved, Moved-MovedIn, All-MovedIn,
}

module _ {S : Type 0} (svc : Service S) {Valid : S → Type 0} {request : S → String → Option Request}
    (c : Contract svc.store Valid request) where
  execute_one-MovedIn :
      (at : Time) (r : Request) (w : World S)
      → Valid w.state
      → request w.state r.id ≡ some r
      → IsRunnable r
      → MovedIn c (WorkerExecution svc) (r ∷ []) w.state (execute_one svc at r w).1.state
  execute_one-MovedIn at r w v held due =
      Moved-MovedIn c (WorkerExecution svc) r w.state _ v
        ((Does-execute_one svc (alone c) at r w held).at v)

  remind_one-MovedIn :
      (at : Time) (r : Request) (w : World S)
      → Valid w.state
      → request w.state r.id ≡ some r
      → IsPending r
      → MovedIn c WorkerReminder (r ∷ []) w.state (remind_one svc at r w).1.state
  remind_one-MovedIn at r w v held due =
      Moved-MovedIn c WorkerReminder r w.state _ v
        ((Does-remind_one svc (alone c) at r w held due).at v)

  execute_all-MovedIn :
      (at : Time) (rs : List Request) (w : World S)
      → Valid w.state
      → AllHeld c (WorkerExecution svc) w.state rs
      → IsDistinct rs
      → All IsRunnable rs
      → MovedIn c (WorkerExecution svc) rs w.state (execute_all svc at rs w).1.state
  unfolding execute_all
  execute_all-MovedIn at =
      All-MovedIn c (WorkerExecution svc) IsRunnable (execute_one svc at) (execute_all svc at)
        (λ w. refl) (λ r rs w. refl) (execute_one-MovedIn at)

  remind_all-MovedIn :
      (at : Time) (rs : List Request) (w : World S)
      → Valid w.state
      → AllHeld c WorkerReminder w.state rs
      → IsDistinct rs
      → All IsPending rs
      → MovedIn c WorkerReminder rs w.state (remind_all svc at rs w).1.state
  unfolding remind_all
  remind_all-MovedIn at =
      All-MovedIn c WorkerReminder IsPending (remind_one svc at) (remind_all svc at) (λ w. refl)
        (λ r rs w. refl) (remind_one-MovedIn at)

  -- A step that changes no request, a listing, and what is done for each of its requests.
  module _ (P : Request → Request → Type 0) (Due : Request → Type 0)
      (all : List Request → M S (Unit {0}))
      (chain : (rs : List Request) (w : World S)
        → Valid w.state
        → AllHeld c P w.state rs
        → IsDistinct rs
        → All Due rs
        → MovedIn c P rs w.state (all rs w).1.state) where
    listed-Moved :
        (s : S) (x : Result (List Request) × World S)
        → Valid x.1.state
        → SameRequests request s x.1.state
        → ListLaw request Due s x.0
        → Moved c P s (((λ _. x) >>= all) x.1).1.state
    listed-Moved s (err e, w) v same law = Moved-Same c P s w.state (v, same)
    listed-Moved s (ok rs, w) v same (held, distinct, due) =
        Moved-before c P s w.state _ (v, same)
          (MovedIn-Moved c P rs w.state _
            (chain rs w v (AllHeld-Same c s w.state same rs held) distinct due))

    pass-Moved :
        (op : Op S (List Request)) (w : World S)
        → Lists Valid request Due op
        → Valid w.state
        → Moved c P w.state ((call op >>= all) w).1.state
    pass-Moved op w lists v =
        let (v', same, law) = lists w.state v in listed-Moved w.state (call op w) v' same law

  -- Over any store with the contract, from a valid state, a pass of the worker leaves every request
  -- as it was, or changes it as the pass is for: an execution pass makes an approved or failed
  -- request executed or failed, as the executor decides on it, and counts the attempt; a reminder
  -- pass counts the reminder of a pending request and leaves status and attempts. The requester
  -- stays, and the version goes up by one.
  pub passes-Moved :
      (limit : ℤ) (w : World S)
      → Valid w.state
      → Moved c (WorkerExecution svc) w.state (process_due_executions svc limit w).1.state
        × Moved c WorkerReminder w.state (process_due_reminders svc limit w).1.state
  unfolding process_due_executions process_due_reminders
  passes-Moved limit w v = (
    pass-Moved (WorkerExecution svc) IsRunnable (execute_all svc _) (execute_all-MovedIn _) _
        (now_utc svc.runtime w).1 (c.executions_listed _ limit) v,
    pass-Moved WorkerReminder IsPending (remind_all svc _) (remind_all-MovedIn _) _
        (now_utc svc.runtime w).1 (c.reminders_listed _ limit) v,
  )
