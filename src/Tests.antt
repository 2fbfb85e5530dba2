-- ===== src/Tests.antt =====
-- Data for runs of the service over the memory store, as in
-- internal/application/service_test.go: an employee's request for a target that the simulated
-- executor fails on is submitted, approved and tried once.
pub mod Database
pub mod Examples
pub mod Histories
pub mod Http
pub mod Migrations
pub mod Replays
pub mod Settling
pub mod Startup
pub mod Sharing
pub mod Running
pub mod Stores
use review_workflow.Base.{◌*◌, String, Option, none, some, List, [], ◌∷◌, lookup}
use review_workflow.Base.Int.{ℤ, pos}
use review_workflow.Domain.{
  draft, execution_failed, employee, reviewer, Time, Status, Actor, Request, IdempotencyRecord,
}
use review_workflow.Domain.Id.{bytes}
use review_workflow.Repository.Memory.{Memory, memory_store}
use review_workflow.Application.Executor.{simulated_executor}
use review_workflow.Application.Monad.{Runtime, Service, World}
use review_workflow.Application.Review.{zero_request}
use review_workflow.Application.Requests.{CreateDraftInput}
use review_workflow.Workflow.Runs.{
  Call, run, create_draft, submit_request, approve_request, process_due_executions,
}

abbrev pub runtime : Runtime
runtime = record {
  clock = λ k. pos (1000 * k);
  random = λ n. bytes (n ∷ []);
  sha256_hex = λ s. s;
  quote = λ s. s;
}

abbrev pub service : Service Memory
service = record {
  store = memory_store;
  executor = simulated_executor;
  default_reviewer_id = "reviewer-1";
  reminder_after = pos 60000;
  execution_retry_base = pos 5000;
  execution_max_attempts = pos 3;
  runtime = runtime;
}

abbrev pub zero_time : Time
zero_time = pos 0

abbrev pub alice : Actor
alice = record { id = "alice"; role = employee }

abbrev pub rex : Actor
rex = record { id = "reviewer-1"; role = reviewer }

abbrev pub start : World Memory
start = record {
  state = record { requests = []; audit = []; reviews = []; idempotency = []; job_runs = [] };
  ticks = 0;
  draws = 0;
}

abbrev pub input : CreateDraftInput
input = record {
  type = " system_access";
  target_resource = "FAIL box";
  justification = "need support access";
}

abbrev pub creation : List Call
creation = create_draft alice input ∷ []

abbrev pub submitting : List Call
submitting = submit_request alice "req_00" "submit-1" ∷ []

abbrev pub approval : List Call
approval = approve_request rex "req_00" "approve-1" "looks good" ∷ []

abbrev pub trial : List Call
trial = process_due_executions (pos 10) ∷ []

abbrev pub submission_record : IdempotencyRecord
submission_record = record {
  key = "submit-1";
  scope = "submit:req_00";
  fingerprint = "alice";
  request_id = "req_00";
  created_at = pos 2000;
}

-- What becomes of the request after its submission and one trial.
abbrev pub failed_request : Request
failed_request = record {
  id = "req_00";
  type = "system_access";
  target_resource = "FAIL box";
  justification = "need support access";
  requester_id = "alice";
  assigned_reviewer_id = "reviewer-1";
  status = execution_failed;
  version = pos 4;
  reminder_count = pos 0;
  execution_attempts = pos 1;
  last_execution_error = "simulated provisioning failure for FAIL box";
  created_at = pos 0;
  updated_at = pos 10000;
  submitted_at = some (pos 3000);
  approved_at = some (pos 7000);
  reviewed_at = some (pos 7000);
  executed_at = none;
  last_reminded_at = none;
  next_execution_at = some (pos 15000);
}

abbrev pub drafted_request : Request
drafted_request = record {
  id = "req_00";
  type = "system_access";
  target_resource = "FAIL box";
  justification = "need support access";
  requester_id = "alice";
  assigned_reviewer_id = "";
  status = draft;
  version = pos 1;
  reminder_count = pos 0;
  execution_attempts = pos 0;
  last_execution_error = "";
  created_at = pos 0;
  updated_at = pos 0;
  submitted_at = none;
  approved_at = none;
  reviewed_at = none;
  executed_at = none;
  last_reminded_at = none;
  next_execution_at = none;
}

-- The failed request, with another status.
abbrev pub with_status : Status → Request
with_status status = record failed_request { status = status }

abbrev pub holding : Request → World Memory
holding r = record start { state = record start.state { requests = (r.id, r) ∷ [] } }
