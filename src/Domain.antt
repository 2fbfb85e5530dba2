-- ===== src/Domain.antt =====
-- internal/domain/models.go: the entities of the workflow and the check of an actor.
-- A string type with constants (`Role`, `Status`) is a data type whose last constructor holds any
-- other text. A `time.Time` is its distance in nanoseconds from a fixed instant, and a
-- `*time.Time` is an `Option`.
pub mod Validation
pub mod Id
use review_workflow.Base.{
  Bool, true, false, String, ◌<>◌, ◌==◌, Option, none, some, trim_space, if◌then◌else◌,
}
use review_workflow.Base.Int.{ℤ}

abbrev pub Time : Type 0
Time = ℤ

-- `time.Duration`: nanoseconds, a 64-bit signed integer.
abbrev pub Duration : Type 0
Duration = ℤ

pub data Role : Type 0 where
  employee reviewer admin : Role
  other_role : String → Role

-- The conversion `domain.Role(s)`.
unfoldable pub role_of : String → Role
role_of s =
    if s == "employee"
    then employee
    else if s == "reviewer"
    then reviewer
    else if s == "admin"
    then admin
    else other_role s

pub data Status : Type 0 where
  draft submitted pending_review approved rejected executed execution_failed : Status
  other_status : String → Status

abbrev pub status_text : Status → String
status_text draft = "draft"
status_text submitted = "submitted"
status_text pending_review = "pending_review"
status_text approved = "approved"
status_text rejected = "rejected"
status_text executed = "executed"
status_text execution_failed = "execution_failed"
status_text (other_status s) = s

-- The conversion `domain.Status(s)`.
unfoldable pub status_of : String → Status
status_of s =
    if s == "draft"
    then draft
    else if s == "submitted"
    then submitted
    else if s == "pending_review"
    then pending_review
    else if s == "approved"
    then approved
    else if s == "rejected"
    then rejected
    else if s == "executed"
    then executed
    else if s == "execution_failed"
    then execution_failed
    else other_status s

-- `status == constant`, one test for each constant that the code compares with.
abbrev pub is_draft : Status → Bool
is_draft draft = true
is_draft _ = false

abbrev pub is_pending_review : Status → Bool
is_pending_review pending_review = true
is_pending_review _ = false

abbrev pub is_approved : Status → Bool
is_approved approved = true
is_approved _ = false

abbrev pub is_rejected : Status → Bool
is_rejected rejected = true
is_rejected _ = false

abbrev pub is_execution_failed : Status → Bool
is_execution_failed execution_failed = true
is_execution_failed _ = false

abbrev pub is_admin : Role → Bool
is_admin admin = true
is_admin _ = false

abbrev pub is_reviewer : Role → Bool
is_reviewer reviewer = true
is_reviewer _ = false

pub record Actor : Type 0 where
  pub id : String
  pub role : Role

pub record Request : Type 0 where
  pub id : String
  pub type : String
  pub target_resource : String
  pub justification : String
  pub requester_id : String
  pub assigned_reviewer_id : String
  pub status : Status
  pub version : ℤ
  pub reminder_count : ℤ
  pub execution_attempts : ℤ
  pub last_execution_error : String
  pub created_at : Time
  pub updated_at : Time
  pub submitted_at : Option Time
  pub approved_at : Option Time
  pub reviewed_at : Option Time
  pub executed_at : Option Time
  pub last_reminded_at : Option Time
  pub next_execution_at : Option Time

pub record AuditEntry : Type 0 where
  pub id : String
  pub request_id : String
  pub actor_id : String
  pub actor_role : Role
  pub action : String
  pub description : String
  pub created_at : Time

pub record ReviewAction : Type 0 where
  pub id : String
  pub request_id : String
  pub decision : String
  pub comment : String
  pub actor_id : String
  pub created_at : Time

pub record JobRun : Type 0 where
  pub id : String
  pub request_id : String
  pub job_type : String
  pub status : String
  pub attempt : ℤ
  pub message : String
  pub executed_at : Time

pub record IdempotencyRecord : Type 0 where
  pub key : String
  pub scope : String
  pub fingerprint : String
  pub request_id : String
  pub created_at : Time

pub record RequestFilter : Type 0 where
  pub requester_id : String
  pub reviewer_id : String
  pub status : Status

-- The `switch` of `ValidateActor`: the message of the error, if there is one.
validate_role : (String → String) → Role → Option String
validate_role quote (other_role r) = some ("invalid actor role " <> quote r)
validate_role quote _ = none

-- `quote` is `%q`, strconv's quotation of a text.
unfoldable pub validate_actor : (String → String) → Actor → Option String
unfolding validate_role
validate_actor quote actor =
    if trim_space actor.id == ""
    then some "actor id is required"
    else validate_role quote actor.role
