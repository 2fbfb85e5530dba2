-- ===== src/Application/Contract/Among/Passes.antt =====
-- The worker's passes over a store that it shares with others.
use review_workflow.Base.{
  ◌≡◌, ◌≢◌, refl, sym, ap, ◌∙◌, inl, inr, String, Option, List, [], ◌∷◌, All,
}
use review_workflow.Base.Int.{ℤ}
use review_workflow.Domain.{Request}
use review_workflow.Application.Errors.{Result, ok, err}
use review_workflow.Application.Interfaces.{Op}
use review_workflow.Application.Monad.{Service, World, M, ◌>>◌, ◌>>=◌, call, now_utc}
use review_workflow.Application.Execution.{
  process_due_executions, process_due_reminders, execute_all, execute_one, remind_all, remind_one,
}
use review_workflow.Application.Contract.{Contract, IsDistinct, IsPending, IsRunnable}
use review_workflow.Application.Contract.Protocol.{Waits, Listing}
use review_workflow.Application.Contract.Worker.{
  Exactly, WorkerExecution, WorkerReminder, Does-execute_one, Does-remind_one,
}
use review_workflow.Application.Contract.Among.{
  Shared, IsShared, Own, Course, unmoved, waiting, changing, among_others,
}
use review_workflow.Application.Contract.Among.Steps.{Knows, Between, Ends}
use review_workflow.Application.Contract.Among.Rules.{shared}

module _ {S : Type 0} (Valid : S → Type 0) (request : S → String → Option Request)
    (P : Request → Request → Type 0) where
  -- Valid data, that a course has led to.
  abbrev pub Led : Shared S → Shared S → Type 0
  Led t u = IsShared Valid request u × Course Valid request P t u

  pub Course-trans :
      {t u v : Shared S}
      → Course Valid request P t u
      → Course Valid request P u v
      → Course Valid request P t v
  Course-trans f unmoved = f
  Course-trans f (waiting g a) = waiting (Course-trans f g) a
  Course-trans f (changing g o) = changing (Course-trans f g) o

  Own-Exactly :
      (r : Request) (x y : Shared S) → Own Valid request (Exactly r P) x y → Own Valid request P x y
  Own-Exactly r x y own = record {
    old = own.old;
    new = own.new;
    held = own.held;
    change = own.change.1;
    changed = own.changed;
    valid = own.valid;
    same_others = own.same_others;
  }

  Ends-Led : (r : Request) (t u : Shared S) → Ends Valid request (Exactly r P) t u → Led t u
  Ends-Led r t u (v, inl b) = (v, waiting unmoved b.1)
  Ends-Led r t u (v, inr (x, y, es, fs, (own, keeps))) =
      (v, waiting (changing (waiting unmoved es) (Own-Exactly r x y own)) fs)

  Ends-apart :
      (r q : Request) (t u : Shared S)
      → Ends Valid request (Exactly r P) t u
      → r.id ≢ q.id
      → Knows Valid request q t
      → Knows Valid request q u
  Ends-apart r q t u (v, inl b) apart known = b.2 q known
  Ends-apart r q t u (v, inr (x, y, es, fs, (own, keeps))) apart known =
      keeps q (λ same. apart (ap (λ o. o.id) (sym own.change.0) ∙ sym same)) known

  All-apart :
      (r : Request) (rs : List Request) (t u : Shared S)
      → Ends Valid request (Exactly r P) t u
      → All (λ q. r.id ≢ q.id) rs
      → All (λ q. Knows Valid request q t) rs
      → All (λ q. Knows Valid request q u) rs
  All-apart r [] t u e apart known = tt
  All-apart r (q ∷ rs) t u e (apart, aparts) (known, rest) =
      (Ends-apart r q t u e apart known, All-apart r rs t u e aparts rest)

  module _ (Due : Request → Type 0) (one : Request → M (Shared S) (Unit {0}))
      (all : List Request → M (Shared S) (Unit {0}))
      (all-nil : (w : World (Shared S)) → all [] w ≡ (ok tt, w))
      (all-cons : (r : Request) (rs : List Request) (w : World (Shared S))
        → all (r ∷ rs) w ≡ (one r >> all rs) w)
      (step : (r : Request) (w : World (Shared S))
        → IsShared Valid request w.state
        → Knows Valid request r w.state
        → Due r
        → Ends Valid request (Exactly r P) w.state (one r w).1.state) where
    rest-Led :
        (rs : List Request) (t : Shared S) (x : Result (Unit {0}) × World (Shared S))
        → Led t x.1.state
        → Led x.1.state (all rs x.1).1.state
        → Led t (((λ _. x) >> all rs) x.1).1.state
    rest-Led rs t (ok u, w) (v, f) (v', g) = (v', Course-trans f g)
    rest-Led rs t (err e, w) first later = first

    All-Led :
        (rs : List Request) (w : World (Shared S))
        → IsShared Valid request w.state
        → All (λ r. Knows Valid request r w.state) rs
        → IsDistinct rs
        → All Due rs
        → Led w.state (all rs w).1.state
    All-Led [] w v known distinct due = rw (all-nil w) (v, unmoved)
    All-Led (r ∷ rs) w v (known, rest) (apart, distinct) (now_, due) =
        let e = step r w v known now_ in
        let w' = (one r w).1 in
        rw (all-cons r rs w) (
          rest-Led rs w.state (one r w) (Ends-Led r w.state w'.state e)
            (All-Led rs w' e.0 (All-apart r rs w.state w'.state e apart rest) distinct due))

    listed-Led :
        (t : Shared S) (x : Result (List Request) × World (Shared S))
        → Between Valid request t x.1.state
        → ((rs : List Request)
            → x.0 ≡ ok rs
            → All (λ r. Knows Valid request r x.1.state) rs × IsDistinct rs × All Due rs)
        → Led t (((λ _. x) >>= all) x.1).1.state
    listed-Led t (err e, w) b known = (b.0, waiting unmoved b.1)
    listed-Led t (ok rs, w) b known =
        let (knows, distinct, due) = known rs refl in
        let (v, course) = All-Led rs w b.0 knows distinct due in
        (v, Course-trans (waiting unmoved b.1) course)

    pass-Led :
        (op : Op (Shared S) (List Request)) (w : World (Shared S))
        → Waits (IsShared Valid request) (Between Valid request) op
        → Listing (IsShared Valid request) (Knows Valid request) Due op
        → IsShared Valid request w.state
        → Led w.state ((call op >>= all) w).1.state
    pass-Led op w waits lists v =
        listed-Led w.state (call op w) (waits w.state v) (λ rs e. lists w.state rs v e)

module _ {S : Type 0} (svc : Service S) {Valid : S → Type 0} {request : S → String → Option Request}
    (c : Contract svc.store Valid request) where
  pub executions-Led :
      (limit : ℤ) (w : World (Shared S))
      → IsShared Valid request w.state
      → Led Valid request
          (WorkerExecution svc)
          w.state
          (process_due_executions (among_others svc) limit w).1.state
  unfolding process_due_executions execute_all
  executions-Led limit w v =
      let others = among_others svc in
      let p = shared c in
      pass-Led Valid request (WorkerExecution svc) IsRunnable (execute_one others _)
        (execute_all others _) (λ w. refl) (λ r rs w. refl)
        (λ r w v known due. (Does-execute_one others p _ r w known).at v) _
        (now_utc svc.runtime w).1 (p.executions_wait _ limit) (p.executions_listed _ limit) v

  pub reminders-Led :
      (limit : ℤ) (w : World (Shared S))
      → IsShared Valid request w.state
      → Led Valid request WorkerReminder w.state
          (process_due_reminders (among_others svc) limit w).1.state
  unfolding process_due_reminders remind_all
  reminders-Led limit w v =
      let others = among_others svc in
      let p = shared c in
      pass-Led Valid request WorkerReminder IsPending (remind_one others _) (remind_all others _)
        (λ w. refl) (λ r rs w. refl)
        (λ r w v known due. (Does-remind_one others p _ r w known due).at v) _
        (now_utc svc.runtime w).1 (p.reminders_wait _ limit) (p.reminders_listed _ limit) v
