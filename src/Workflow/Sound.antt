-- ===== src/Workflow/Sound.antt =====
-- What a request and its audit trail are between two calls, and the transitions of the workflow.
use review_workflow.Base.{
  ◌+◌, ◌≡◌, sym, ap, ◌∙◌, ◌≢◌, Bool, true, false, String, none, List, [], ◌∷◌, ◌++◌, arith, length,
  length-append, Any, here, Any-append_left, Any-append_right, if◌then◌else◌,
}
use review_workflow.Base.Int.{ℤ, pos, incr, wrap64, incr-wrap64, ◌<ℤ◌}
use review_workflow.Domain.{
  Status, submitted, approved, executed, execution_failed, other_status, is_draft, Request,
  AuditEntry,
}
use review_workflow.Workflow.{
  Move, submit, approve, reject, succeed, fail, remind, SameReviewer, Decides, IsNewDraft,
}

-- The statuses that a request can have: all but `StatusSubmitted`, which the code never sets.
abbrev pub is_reached : Status → Bool
is_reached submitted = false
is_reached (other_status _) = false
is_reached _ = true

abbrev pub is_untried : Status → Bool
is_untried executed = false
is_untried execution_failed = false
is_untried _ = true

abbrev pub is_due : Status → Bool
is_due approved = true
is_due execution_failed = true
is_due _ = false

abbrev pub is_released : Status → Bool
is_released approved = true
is_released executed = true
is_released execution_failed = true
is_released _ = false

-- `max` is the bound on execution attempts, `trail` the request's audit entries. A draft has as
-- many entries as its version says, any other request one more.
pub record IsSound (max : ℤ) (trail : List AuditEntry) (r : Request) : Type 0 where
  pub reached : is_reached r.status ≡ true
  pub counted :
      wrap64 (pos (length trail)) ≡ (if is_draft r.status then r.version else incr r.version)
  pub untried : is_untried r.status ≡ true → r.execution_attempts ≡ pos 0
  pub scheduled :
      r.next_execution_at ≢ none → (is_due r.status ≡ true) × (r.execution_attempts <ℤ max)
  pub vetted :
      is_released r.status ≡ true
      → Any (Decides "approved" r.requester_id r.assigned_reviewer_id) trail

pub draft-IsSound : (max : ℤ) (e : AuditEntry) (r : Request) → IsNewDraft r → IsSound max (e ∷ []) r
unfolding wrap64
draft-IsSound max e r new = record {
  reached = ground arith;
  counted = ground arith;
  untried = ground arith;
  scheduled = ground arith;
  vetted = ground arith;
}

module _ (reviewer_id : String) (max : ℤ) (positive : pos 0 <ℤ max) (trail : List AuditEntry)
    (r r' : Request) where
  one_more :
      (e : AuditEntry)
      → wrap64 (pos (length (trail ++ e ∷ []))) ≡ incr (wrap64 (pos (length trail)))
  one_more e =
      ap (λ n. wrap64 (pos n)) (length-append trail (e ∷ [])) ∙ sym (incr-wrap64 (length trail))

  two_more :
      (e e' : AuditEntry)
      → wrap64 (pos (length (trail ++ e ∷ e' ∷ []))) ≡ incr (incr (wrap64 (pos (length trail))))
  two_more e e' =
      ap (λ n. wrap64 (pos n)) (length-append trail (e ∷ e' ∷ []) ∙ omega arith)
      ∙ sym (ap incr (incr-wrap64 (length trail)) ∙ incr-wrap64 (length trail + 1))

  -- A request that was approved stays so, under the same requester and reviewer.
  vetted_still :
      (e : AuditEntry)
      → SameReviewer r r'
      → Any (Decides "approved" r.requester_id r.assigned_reviewer_id) trail
      → Any (Decides "approved" r'.requester_id r'.assigned_reviewer_id) (trail ++ e ∷ [])
  vetted_still e same before =
      rw (same.identity.requester_same, same.reviewer_same)
        (Any-append_left _ trail (e ∷ []) before)

  pub Move-IsSound :
      {es : List AuditEntry}
      → Move reviewer_id max r r' es
      → IsSound max trail r
      → IsSound max (trail ++ es) r'
  Move-IsSound (submit e e' same was now_ assigned at tries next named named') s = record {
    reached = ground arith;
    counted = ground (arith, two_more e e');
    untried = ground arith;
    scheduled = ground arith;
    vetted = ground arith;
  }
  Move-IsSound (approve e same was now_ decides tries next) s = record {
    reached = ground arith;
    counted = ground (arith, one_more e);
    untried = ground arith;
    scheduled = ground arith;
    vetted = λ _.
        rw (same.identity.requester_same, same.reviewer_same)
          (Any-append_right _ trail (e ∷ []) (here decides));
  }
  Move-IsSound (reject e same was now_ decides tries next) s = record {
    reached = ground arith;
    counted = ground (arith, one_more e);
    untried = ground arith;
    scheduled = ground arith;
    vetted = ground arith;
  }
  Move-IsSound (succeed e same was now_ named tries next) s = record {
    reached = ground arith;
    counted = ground (arith, one_more e);
    untried = ground arith;
    scheduled = ground arith;
    vetted = λ _. vetted_still e same (s.vetted (ground arith));
  }
  Move-IsSound (fail e same was now_ named tries next) s = record {
    reached = ground arith;
    counted = ground (arith, one_more e);
    untried = ground arith;
    scheduled = ground arith;
    vetted = λ _. vetted_still e same (s.vetted (ground arith));
  }
  Move-IsSound (remind e same was now_ named tries next) s = record {
    reached = ground arith;
    counted = ground (arith, one_more e);
    untried = ground arith;
    scheduled = ground arith;
    vetted = ground arith;
  }
