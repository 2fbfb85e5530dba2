-- ===== src/Domain/Validation.antt =====
-- `domain.ValidateActor` against a description of the actors that it is for.
use review_workflow.Base.{◌≡◌, ◌≢◌, ◌⊎◌, ◌↔◌, none, String, eq_iff, arith, trim_space}
use review_workflow.Domain.{employee, reviewer, admin, Actor, validate_actor}

-- The check passes exactly if the identifier is not blank and the role is one of the three.
pub validate_actor_iff :
    (quote : String → String) (actor : Actor)
    → (validate_actor quote actor ≡ none) ↔ (
        (trim_space actor.id ≢ "")
        × ((actor.role ≡ employee) ⊎ (actor.role ≡ reviewer) ⊎ (actor.role ≡ admin)))
unfolding validate_actor
validate_actor_iff quote actor = ground (arith, eq_iff (trim_space actor.id) "")
