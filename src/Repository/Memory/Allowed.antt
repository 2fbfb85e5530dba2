-- ===== src/Repository/Memory/Allowed.antt =====
-- Which requests the listings for the worker of internal/repository/memory/store.go select.
use review_workflow.Base.{◌≡◌, ◌⊎◌, refl, inl, inr, Bool, true, false, ◌&&◌, ◌||◌}
use review_workflow.Domain.{
  is_approved, is_execution_failed, is_pending_review, Status, draft, submitted, pending_review,
  approved, rejected, executed, execution_failed, other_status, Time, Request,
}
use review_workflow.Application.Contract.{IsPending, IsRunnable}
use review_workflow.Repository.Memory.{needs_reminder, ready_for_execution}

-- A test that is made before another.
pub first_test : (a b : Bool) → (a && b) ≡ true → a ≡ true
first_test true b e = refl
first_test false b e = cc

pub pending_status : (s : Status) → is_pending_review s ≡ true → s ≡ pending_review
pending_status pending_review e = refl
pending_status draft e = cc
pending_status submitted e = cc
pending_status approved e = cc
pending_status rejected e = cc
pending_status executed e = cc
pending_status execution_failed e = cc
pending_status (other_status s) e = cc

pub runnable_status :
    (s : Status)
    → (is_approved s || is_execution_failed s) ≡ true
    → (s ≡ approved) ⊎ (s ≡ execution_failed)
runnable_status approved e = inl refl
runnable_status execution_failed e = inr refl
runnable_status draft e = cc
runnable_status submitted e = cc
runnable_status pending_review e = cc
runnable_status rejected e = cc
runnable_status executed e = cc
runnable_status (other_status s) e = cc

pub needs_reminder-IsPending :
    (before : Time) (r : Request) → needs_reminder before r ≡ true → IsPending r
unfolding needs_reminder
needs_reminder-IsPending before r e = pending_status r.status (first_test _ _ (first_test _ _ e))

pub ready-IsRunnable :
    (before : Time) (r : Request) → ready_for_execution before r ≡ true → IsRunnable r
unfolding ready_for_execution
ready-IsRunnable before r e = runnable_status r.status (first_test _ _ e)
