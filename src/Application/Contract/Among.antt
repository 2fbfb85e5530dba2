-- ===== src/Application/Contract/Among.antt =====
-- A store that a client shares with others: before each call of the client's, others take some steps
-- on the same data.
pub mod Steps
pub mod Rules
pub mod Polite
pub mod Calls
pub mod Passes
pub mod History
pub mod Lawful
pub mod Approval
use review_workflow.Base.{
  ℕ, ◌+◌, ◌<◌, ◌≡◌, ◌⊎◌, String, ◌==◌, Option, some, List, [], ◌∷◌, length, All, if◌then◌else◌,
}
use review_workflow.Base.Int.{incr}
use review_workflow.Domain.{Request}
use review_workflow.Application.Interfaces.{Op, Store}
use review_workflow.Application.Monad.{Service}
use review_workflow.Application.Contract.{SameRequests}

-- The data, and the steps that others will take before each of the client's next calls.
pub record Shared (S : Type 0) : Type 0 where
  pub state : S
  pub others : List (List (S → S))

module _ {S : Type 0} where
  -- The number of steps that are left to the others.
  abbrev pub left : List (List (S → S)) → ℕ
  left [] = 0
  left (fs ∷ gs) = length fs + left gs

  abbrev pub in_order : List (S → S) → S → S
  in_order [] s = s
  in_order (f ∷ fs) s = in_order fs (f s)

  -- The steps that are due have been taken.
  abbrev pub settled : S → List (List (S → S)) → Shared S
  settled s [] = record { state = s; others = [] }
  settled s (fs ∷ gs) = record { state = in_order fs s; others = gs }

  abbrev pub settle : Shared S → Shared S
  settle t = settled t.state t.others

  abbrev pub interrupted : {A : Type 0} → Op S A → Op (Shared S) A
  interrupted op t =
      let t' = settle t in let (result, s) = op t'.state in (result, record t' { state = s })

  abbrev pub among : Store S → Store (Shared S)
  among store = record {
    create_request = λ req. interrupted (store.create_request req);
    get_request = λ id. interrupted (store.get_request id);
    list_requests = λ filter. interrupted (store.list_requests filter);
    update_request = λ req expected. interrupted (store.update_request req expected);
    append_audit = λ entry. interrupted (store.append_audit entry);
    list_audit = λ id. interrupted (store.list_audit id);
    create_review = λ review. interrupted (store.create_review review);
    get_idempotency = λ scope key. interrupted (store.get_idempotency scope key);
    create_idempotency = λ rec. interrupted (store.create_idempotency rec);
    list_requests_needing_reminder =
        λ before limit. interrupted (store.list_requests_needing_reminder before limit);
    list_requests_ready_for_execution =
        λ before limit. interrupted (store.list_requests_ready_for_execution before limit);
    append_job_run = λ run. interrupted (store.append_job_run run);
  }

  module _ (Valid : S → Type 0) (request : S → String → Option Request) where
    -- A step after which every request is still held, as it was or with the next version.
    abbrev pub IsPolite : (S → S) → Type 0
    IsPolite f =
        (s : S)
        → Valid s
        → Valid (f s)
          × ((k : String) (r : Request)
              → request s k ≡ some r
              → (request (f s) k ≡ some r)
                ⊎ ((r' : Request) × (request (f s) k ≡ some r') × (r'.version ≡ incr r.version)))

    -- Valid data, and others that are polite and take fewer than 2 ^ 64 steps.
    abbrev pub IsShared : Shared S → Type 0
    IsShared t =
        Valid t.state × All (λ fs. All IsPolite fs) t.others × (left t.others < 0x10000000000000000)

  module _ (Valid : S → Type 0) (request : S → String → Option Request) where
    -- What happens while the client changes no request: a step of another, the client's turn, and a
    -- call of the client's that changes no request.
    pub data Act : Shared S → Shared S → Type 0 where
      other :
          (f : S → S) (fs : List (S → S)) (gs : List (List (S → S))) (s : S)
          → Act
              (record { state = s; others = (f ∷ fs) ∷ gs })
              (record { state = f s; others = fs ∷ gs })
      own_turn :
          (gs : List (List (S → S))) (s : S)
          → Act (record { state = s; others = [] ∷ gs }) (record { state = s; others = gs })
      quiet :
          (gs : List (List (S → S))) (s s' : S)
          → Valid s'
          → SameRequests request s s'
          → Act (record { state = s; others = gs }) (record { state = s'; others = gs })

    pub data Acts (t : Shared S) : Shared S → Type 0 where
      none_yet : Acts t t
      and_then : {u v : Shared S} → Acts t u → Act u v → Acts t v

    -- A change of the client's: of one request, which is held at that time, as `P` says.
    pub record Own (P : Request → Request → Type 0) (t u : Shared S) : Type 0 where
      pub old : Request
      pub new : Request
      pub held : request t.state old.id ≡ some old
      pub change : P old new
      pub changed :
          (k : String) → request u.state k ≡ (if old.id == k then some new else request t.state k)
      pub valid : Valid u.state
      pub same_others : u.others ≡ t.others

    -- At most one change of the client's, among the steps of others.
    abbrev pub OneChange : (Request → Request → Type 0) → Shared S → Shared S → Type 0
    OneChange P t u = Acts t u ⊎ ((x y : Shared S) × Acts t x × Own P x y × Acts y u)

    -- Any number of changes of the client's, among the steps of others.
    pub data Course (P : Request → Request → Type 0) (t : Shared S) : Shared S → Type 0 where
      unmoved : Course P t t
      waiting : {u v : Shared S} → Course P t u → Acts u v → Course P t v
      changing : {u v : Shared S} → Course P t u → Own P u v → Course P t v

-- The service of a client that shares its store.
abbrev pub among_others : {S : Type 0} → Service S → Service (Shared S)
among_others svc = record {
  store = among svc.store;
  executor = svc.executor;
  default_reviewer_id = svc.default_reviewer_id;
  reminder_after = svc.reminder_after;
  execution_retry_base = svc.execution_retry_base;
  execution_max_attempts = svc.execution_max_attempts;
  runtime = svc.runtime;
}
