-- ===== src/Application/Contract/Among/Approval.antt =====
-- What a run over a shared store has made of a request, and who has approved it.
use review_workflow.Base.{
  ◌≡◌, refl, ap, ◌∙◌, inl, inr, true, false, Bool-cases, ◌||◌, String, Option, some,
}
use review_workflow.Workflow.Sound.{is_released}
use review_workflow.Domain.{
  is_approved, is_execution_failed, Status, draft, submitted, pending_review, approved, rejected,
  executed, execution_failed, other_status, Actor, Request,
}
use review_workflow.Application.Contract.Review.{ReviewChange}
use review_workflow.Application.Contract.Among.{
  Shared, Acts, none_yet, and_then, Course, unmoved, waiting, changing,
}
use review_workflow.Application.Contract.Among.Passes.{Course-trans}
use review_workflow.Application.Contract.Among.History.{
  Transition, submission, approval, rejection, execution, reminder, Transitions, start, then_by,
  Transition-Revised, IsStep, IsLawfulAlong, Step, Act-IsStep, Own-IsStep,
}

module _ (By : Actor → Type 0) where
  ready-released :
      (status : Status)
      → (is_approved status || is_execution_failed status) ≡ true
      → is_released status ≡ true
  ready-released approved ready = refl
  ready-released execution_failed ready = refl
  ready-released executed ready = refl
  ready-released draft ready = cc
  ready-released submitted ready = cc
  ready-released pending_review ready = cc
  ready-released rejected ready = cc
  ready-released (other_status s) ready = cc

  -- The one transition that releases a request.
  released-by :
      (q q' : Request)
      → Transition By q q'
      → is_released q.status ≡ false
      → is_released q'.status ≡ true
      → (actor : Actor) × By actor × ReviewChange approved actor q q'
  released-by q q' (approval actor by p) unreleased released = (actor, by, p)
  released-by q q' (submission actor by p) unreleased released = absurd (cc (p.2, released))
  released-by q q' (rejection actor by p) unreleased released = absurd (cc (p.3, released))
  released-by q q' (execution actor success by p) unreleased released =
      absurd (cc (ready-released q.status p.1, unreleased))
  released-by q q' (reminder p) unreleased released = absurd (cc (p.1, released))

module _ {S : Type 0} (Valid : S → Type 0) (request : S → String → Option Request)
    (By : Actor → Type 0) where
  -- In the run from `t` to `u`, one step has approved the request under the key `k`, that was held
  -- at first as `r`: before the step, it was pending, and the actor is one who may decide on it and
  -- did not ask for it.
  pub record WasApproved (t u : Shared S) (k : String) (r : Request) : Type 0 where
    pub x : Shared S
    pub y : Shared S
    pub before : Course Valid request (Transition By) t x
    pub step : Step Valid request By x y
    pub after : Course Valid request (Transition By) y u
    pub old : Request
    pub new : Request
    pub was : request x.state k ≡ some old
    pub now_ : request y.state k ≡ some new
    pub actor : Actor
    pub by : By actor
    pub change : ReviewChange approved actor old new
    pub same_requester : old.requester_id ≡ r.requester_id

  -- What the run from `t` to `u` has made of the request that was held as `r` under the key `k`, and
  -- is held as `q`.
  abbrev pub Since : Shared S → Shared S → String → Request → Request → Type 0
  Since t u k r q =
      (request u.state k ≡ some q)
      × Transitions By r q
      × (q.requester_id ≡ r.requester_id)
      × (is_released r.status ≡ false → is_released q.status ≡ true → WasApproved t u k r)

  abbrev pub Evolved : Shared S → Shared S → Type 0
  Evolved t u =
      (k : String) (r : Request) → request t.state k ≡ some r → (q : Request) × Since t u k r q

  later-WasApproved :
      (t m u : Shared S) (k : String) (r : Request)
      → Course Valid request (Transition By) m u
      → WasApproved t m k r
      → WasApproved t u k r
  later-WasApproved t m u k r course a = record {
    x = a.x;
    y = a.y;
    before = a.before;
    step = a.step;
    after = Course-trans Valid request (Transition By) a.after course;
    old = a.old;
    new = a.new;
    was = a.was;
    now_ = a.now_;
    actor = a.actor;
    by = a.by;
    change = a.change;
    same_requester = a.same_requester;
  }

  module _ (t m u : Shared S) (course : Course Valid request (Transition By) t m)
      (step : Step Valid request By m u) (next : Course Valid request (Transition By) m u) where
    step-WasApproved :
        (k : String) (r q q' : Request)
        → Since t m k r q
        → request u.state k ≡ some q'
        → Transition By q q'
        → is_released r.status ≡ false
        → is_released q'.status ≡ true
        → WasApproved t u k r
    step-WasApproved k r q q' (then_, path, requester, since) now_ change unreleased released =
        elim (Bool-cases (is_released q.status)) [
          | inl e ↦ later-WasApproved t m u k r next (since unreleased e)
          | inr e ↦
              let (actor, by, p) = released-by By q q' change e released in
              record {
                x = m;
                y = u;
                before = course;
                step = step;
                after = unmoved;
                old = q;
                new = q';
                was = then_;
                now_ = now_;
                actor = actor;
                by = by;
                change = p;
                same_requester = requester;
              }
        ]

    step-Evolved : IsStep Valid request By m.state u.state → Evolved t m → Evolved t u
    step-Evolved once evolved k r held =
        let (q, (then_, path, requester, since)) = evolved k r held in
        let (q', now_, change) = once k q then_ in
        elim change [
          | inl same ↦ (
            q,
            (
              now_ ∙ ap some same,
              path,
              requester,
              λ unreleased released. later-WasApproved t m u k r next (since unreleased released),
            ),
          )
          | inr p ↦ (
            q',
            (
              now_,
              then_by path p,
              (Transition-Revised By q q' p).same_requester ∙ requester,
              step-WasApproved k r q q' (then_, path, requester, since) now_ p,
            ),
          )
        ]

  module _ (t : Shared S) (lawful : IsLawfulAlong Valid request By t) where
    Acts-Evolved :
        (m u : Shared S)
        → Course Valid request (Transition By) t m
        → Acts Valid request m u
        → Evolved t m
        → Evolved t u
    Acts-Evolved m u course none_yet evolved = evolved
    Acts-Evolved m u course (and_then {u = n} acts act) evolved =
        let before = waiting course acts in
        step-Evolved t n u before (inl act) (waiting unmoved (and_then none_yet act))
          (Act-IsStep Valid request By t n u lawful before act)
          (Acts-Evolved m n course acts evolved)

    -- A run of transitions makes of every request that was held a request that is held.
    pub Course-Evolved : (u : Shared S) → Course Valid request (Transition By) t u → Evolved t u
    Course-Evolved u unmoved = λ k r held.
        (r, (held, start, refl, λ unreleased released. absurd (cc (unreleased, released))))
    Course-Evolved u (waiting {u = m} course acts) =
        Acts-Evolved m u course acts (Course-Evolved m course)
    Course-Evolved u (changing {u = m} course own) =
        step-Evolved t m u course (inr own) (changing unmoved own)
          (Own-IsStep Valid request By m u own) (Course-Evolved m course)
