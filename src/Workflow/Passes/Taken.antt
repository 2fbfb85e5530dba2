-- ===== src/Workflow/Passes/Taken.antt =====
-- The requests that an execution pass over the memory store takes, and those that it leaves.
use mathlib.Core.Option.{some-injective}
use review_workflow.Base.{
  ℕ, suc, zero, ◌≤◌, ◌≡◌, ◌≢◌, ◌⊎◌, inl, inr, refl, sym, ap, ◌∙◌, Bool, Bool-cases, true, false,
  Option, none, some, String, List, [], ◌∷◌, length, take, All, Any, here, there, arith, Dict,
  lookup, values, ◌||◌, ◌==◌,
}
use mathlib.Core.Path.{subst}
use review_workflow.Base.Int.{ℤ, pos, pos_part, ◌≤ℤ◌}
use review_workflow.Domain.{Time, Request, Status, is_approved, is_execution_failed}
use review_workflow.Repository.Memory.{
  Memory, select, ready_for_execution, list_requests_ready_for_execution,
}
use review_workflow.Repository.Memory.Query.{first}
use review_workflow.Repository.Memory.Listing.{IsMap, Listed, Listed-collect}
use review_workflow.Application.Monad.{Service, World}
use review_workflow.Application.Execution.{process_due_executions}
use review_workflow.Workflow.{on_memory}
use review_workflow.Workflow.Sound.{is_due}
use review_workflow.Workflow.Passes.Outcome.{
  HasOutcome, process_due_executions-HasOutcome, execute_all-elsewhere,
}

All-Any :
    (P : Request → Type 0) (r : Request) (rs : List Request) → All P rs → Any (λ q. q ≡ r) rs → P r
All-Any P r [] h a = elim a [ ]
All-Any P r (q ∷ rs) h (here e) = subst P e h.0
All-Any P r (q ∷ rs) h (there a) = All-Any P r rs h.1 a

Any-values :
    (k : String) (r : Request) (m : Dict Request)
    → lookup k m ≡ some r
    → Any (λ q. q ≡ r) (values m)
unfolding lookup values
Any-values k r [] e = cc
Any-values k r ((j, q) ∷ m) e = elim (Bool-cases (j == k)) [
  | inl h ↦ here (ground arith)
  | inr h ↦ there (Any-values k r m (ground arith))
]

Any-select :
    (p : Request → Bool) (r : Request) (rs : List Request)
    → p r ≡ true
    → Any (λ q. q ≡ r) rs
    → Any (λ q. q ≡ r) (select p rs)
unfolding select
Any-select p r [] e a = elim a [ ]
Any-select p r (q ∷ rs) e (here same) = rw (ap p same ∙ e) (here same)
Any-select p r (q ∷ rs) e (there a) = elim (Bool-cases (p q)) [
  | inl h ↦ rw h (there (Any-select p r rs e a))
  | inr h ↦ rw h (Any-select p r rs e a)
]

-- The limit lets all through.
abbrev pub HasRoom : ℤ → List Request → Type 0
HasRoom limit rs = (limit ≤ℤ pos 0) ⊎ (length rs ≤ pos_part limit)

take_all : (n : ℕ) (rs : List Request) → length rs ≤ n → take n rs ≡ rs
take_all zero [] h = refl
take_all zero (r ∷ rs) h = absurd (omega arith)
take_all (suc n) [] h = refl
take_all (suc n) (r ∷ rs) h = ap (λ xs. r ∷ xs) (take_all n rs (omega arith))

first_all : (limit : ℤ) (rs : List Request) → HasRoom limit rs → first limit rs ≡ rs
first_all limit rs (inl none_) = ground arith
first_all limit rs (inr enough) = ground (arith, take_all (pos_part limit) rs enough)

Listed-apart :
    (p : Request → Bool) (k : String) (r : Request) (m : Dict Request) (rs : List Request)
    → lookup k m ≡ some r
    → p r ≡ false
    → Listed p m rs
    → All (λ q. k ≢ q.id) rs
Listed-apart p k r m [] stored undue h = tt
Listed-apart p k r m (q ∷ rs) stored undue (found, due, apart, others) = (
  (λ same.
      let e : q ≡ r = some-injective q r (sym found ∙ ap (λ i. lookup i m) (sym same) ∙ stored) in
      cc (ap p e)),
  Listed-apart p k r m rs stored undue others,
)

is_due-ready : (s : Status) → is_due s ≡ true → (is_approved s || is_execution_failed s) ≡ true
is_due-ready s h = ground arith

module _ (svc : Service Memory) (limit : ℤ) (k : String) where
  abbrev pub pass : World Memory → World Memory
  pass w = (process_due_executions (on_memory svc) limit w).1

  abbrev pub due : World Memory → Request → Bool
  due w = ready_for_execution (svc.runtime.clock w.ticks)

  pub process_due_executions_elsewhere :
      (w : World Memory) (r : Request)
      → IsMap w.state.requests
      → lookup k w.state.requests ≡ some r
      → due w r ≡ false
      → lookup k (pass w).state.requests ≡ some r
  unfolding process_due_executions list_requests_ready_for_execution
  process_due_executions_elsewhere w r map stored undue =
      let listed = Listed-collect (due w) limit w.state.requests map in
      execute_all-elsewhere svc _ (due w) _ _ k listed
        (Listed-apart (due w) k r w.state.requests _ stored undue listed)
      ∙ stored

  -- The outcome of a pass for a request that it takes.
  pub due-HasOutcome :
      (w : World Memory) (r : Request)
      → IsMap w.state.requests
      → lookup k w.state.requests ≡ some r
      → due w r ≡ true
      → HasRoom limit (select (due w) (values w.state.requests))
      → HasOutcome svc (pass w).state r
  due-HasOutcome w r map stored ready room =
      let waiting = select (due w) (values w.state.requests) in
      All-Any (HasOutcome svc (pass w).state) r waiting
        (subst (All (HasOutcome svc (pass w).state)) (first_all limit waiting room)
          (process_due_executions-HasOutcome svc limit w map))
        (Any-select (due w) r (values w.state.requests) ready
          (Any-values k r w.state.requests stored))

  -- The time has come, if there is one.
  abbrev pub IsReached : Option Time → Time → Type 0
  IsReached none now_ = Unit
  IsReached (some t) now_ = t ≤ℤ now_

  pub due-true :
      (o : Option Time) (w : World Memory) (r : Request)
      → r.next_execution_at ≡ o
      → o ≢ none
      → IsReached o (svc.runtime.clock w.ticks)
      → is_due r.status ≡ true
      → due w r ≡ true
  unfolding ready_for_execution
  due-true none w r e some_ reached status = absurd (some_ refl)
  due-true (some t) w r e some_ reached status = rw (e, is_due-ready r.status status) (ground arith)

  pub due-false : (w : World Memory) (r : Request) → r.next_execution_at ≡ none → due w r ≡ false
  unfolding ready_for_execution
  due-false w r e = rw e (ground arith)
