-- ===== src/Application/Authority.antt =====
-- Who may decide on a request, as README.md has it, against `canReview` of
-- internal/application/service.go.
use review_workflow.Base.{◌≡◌, ◌⊎◌, inl, inr, refl, true, eq_iff, arith}
use review_workflow.Domain.{Actor, Request, Role, admin, reviewer, employee, other_role}
use review_workflow.Application.Helpers.{can_review}

-- An admin, or the reviewer that the request is assigned to.
abbrev pub MayDecide : Actor → Request → Type 0
MayDecide actor r =
    (actor.role ≡ admin) ⊎ ((actor.role ≡ reviewer) × (r.assigned_reviewer_id ≡ actor.id))

role-MayDecide :
    (role : Role) (actor : Actor) (r : Request)
    → actor.role ≡ role
    → can_review actor r ≡ true
    → MayDecide actor r
unfolding can_review
role-MayDecide admin actor r is may = inl is
role-MayDecide reviewer actor r is may =
    inr (is, ground (arith, eq_iff r.assigned_reviewer_id actor.id))
role-MayDecide employee actor r is may = absurd (ground arith)
role-MayDecide (other_role x) actor r is may = absurd (ground arith)

pub can_review-MayDecide :
    (actor : Actor) (r : Request) → can_review actor r ≡ true → MayDecide actor r
can_review-MayDecide actor r may = role-MayDecide actor.role actor r refl may

pub MayDecide-can_review :
    (actor : Actor) (r : Request) → MayDecide actor r → can_review actor r ≡ true
unfolding can_review
MayDecide-can_review actor r (inl is) = ground arith
MayDecide-can_review actor r (inr (is, assigned)) =
    ground (arith, eq_iff r.assigned_reviewer_id actor.id)
