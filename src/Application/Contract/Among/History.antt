-- ===== src/Application/Contract/Among/History.antt =====
-- What becomes of a request while clients, workers and servers share a store.
use mathlib.Core.Path.{subst}
use mathlib.Core.Option.{some-injective}
use review_workflow.Base.{
  ◌≡◌, ◌⊎◌, refl, sym, ap, ◌∙◌, inl, inr, Bool, String, String-cases, eq_iff, Option, some, List,
  ◌∷◌, All, arith,
}
use review_workflow.Domain.{approved, rejected, Actor, Request}
use review_workflow.Application.Contract.Helpers.{Revised}
use review_workflow.Application.Contract.Submit.{SubmitChange}
use review_workflow.Application.Contract.Review.{ReviewChange}
use review_workflow.Application.Contract.Execution.{ExecutionChange}
use review_workflow.Application.Contract.Worker.{WorkerReminder}
use review_workflow.Application.Contract.Among.{
  Shared, IsPolite, Act, other, own_turn, quiet, Acts, none_yet, and_then, Own, Course, unmoved,
  waiting, changing,
}

-- One of the transitions of the workflow, on behalf of one of certain actors, who may make it.
pub data Transition (By : Actor → Type 0) (r r' : Request) : Type 0 where
  submission : (actor : Actor) → By actor → SubmitChange actor r r' → Transition By r r'
  approval : (actor : Actor) → By actor → ReviewChange approved actor r r' → Transition By r r'
  rejection : (actor : Actor) → By actor → ReviewChange rejected actor r r' → Transition By r r'
  execution :
      (actor : Actor) (success : Bool)
      → By actor
      → ExecutionChange actor success r r'
      → Transition By r r'
  reminder : WorkerReminder r r' → Transition By r r'

-- A sequence of transitions.
pub data Transitions (By : Actor → Type 0) (r : Request) : Request → Type 0 where
  start : Transitions By r r
  then_by : {q q' : Request} → Transitions By r q → Transition By q q' → Transitions By r q'

pub Transition-Revised : (By : Actor → Type 0) (r r' : Request) → Transition By r r' → Revised r r'
Transition-Revised By r r' (submission actor by p) = p.3
Transition-Revised By r r' (approval actor by p) = p.4
Transition-Revised By r r' (rejection actor by p) = p.4
Transition-Revised By r r' (execution actor success by p) = p.4
Transition-Revised By r r' (reminder p) = p.4

module _ {S : Type 0} (Valid : S → Type 0) (request : S → String → Option Request)
    (By : Actor → Type 0) where
  -- What was held as `r` is held after a sequence of transitions.
  abbrev pub Evolves : S → S → Type 0
  Evolves s s' =
      (k : String) (r : Request)
      → request s k ≡ some r
      → (q : Request) × (request s' k ≡ some q) × Transitions By r q

  -- Two states of the data between which each request makes at most one transition.
  abbrev pub IsStep : S → S → Type 0
  IsStep s s' =
      (k : String) (r : Request)
      → request s k ≡ some r
      → (q : Request) × (request s' k ≡ some q) × ((q ≡ r) ⊎ Transition By r q)

  -- A step that makes each request at most one transition, where it is taken on `s`.
  abbrev pub IsLawfulOn : S → (S → S) → Type 0
  IsLawfulOn s f = IsStep s (f s)

  abbrev pub IsLawful : (S → S) → Type 0
  IsLawful f = (s : S) → Valid s → Valid (f s) × IsLawfulOn s f

  -- Wherever a client's transitions among the steps of others lead from `t`, the next step of
  -- another is lawful there.
  abbrev pub IsLawfulAlong : Shared S → Type 0
  IsLawfulAlong t =
      (u : Shared S) (f : S → S) (fs : List (S → S)) (gs : List (List (S → S)))
      → Course Valid request (Transition By) t u
      → u.others ≡ ((f ∷ fs) ∷ gs)
      → IsLawfulOn u.state f

  abbrev pub IsLawfullyShared : Shared S → Type 0
  IsLawfullyShared t = Valid t.state × All (λ fs. All IsLawful fs) t.others

  pub IsLawful-IsPolite : (f : S → S) → IsLawful f → IsPolite Valid request f
  IsLawful-IsPolite f lawful s v =
      let (v', m) = lawful s v in
      (
        v',
        λ k r held.
            let (q, now_, change) = m k r held in
            elim change [
              | inl same ↦ inl (now_ ∙ ap some same)
              | inr t ↦ inr (q, now_, (Transition-Revised By r q t).bumped)
            ],
      )

  Act-IsLawfullyShared :
      (t u : Shared S) → Act Valid request t u → IsLawfullyShared t → IsLawfullyShared u
  Act-IsLawfullyShared t u (other f fs gs s) (v, ((lawful, rest), more)) =
      ((lawful s v).0, (rest, more))
  Act-IsLawfullyShared t u (own_turn gs s) (v, (none_, more)) = (v, more)
  Act-IsLawfullyShared t u (quiet gs s s' v' same) (v, more) = (v', more)

  Acts-IsLawfullyShared :
      (t u : Shared S) → Acts Valid request t u → IsLawfullyShared t → IsLawfullyShared u
  Acts-IsLawfullyShared t u none_yet lawful = lawful
  Acts-IsLawfullyShared t u (and_then {u = m} acts act) lawful =
      Act-IsLawfullyShared m u act (Acts-IsLawfullyShared t m acts lawful)

  Course-IsLawfullyShared :
      (t u : Shared S)
      → Course Valid request (Transition By) t u
      → IsLawfullyShared t
      → IsLawfullyShared u
  Course-IsLawfullyShared t u unmoved lawful = lawful
  Course-IsLawfullyShared t u (waiting {u = m} course acts) lawful =
      Acts-IsLawfullyShared m u acts (Course-IsLawfullyShared t m course lawful)
  Course-IsLawfullyShared t u (changing {u = m} course own) lawful =
      let (v, more) = Course-IsLawfullyShared t m course lawful in
      (own.valid, subst (λ fs. All (λ gs. All IsLawful gs) fs) (sym own.same_others) more)

  -- Others whose steps are lawful on all valid data are lawful along every run.
  pub IsLawfullyShared-IsLawfulAlong : (t : Shared S) → IsLawfullyShared t → IsLawfulAlong t
  IsLawfullyShared-IsLawfulAlong t lawful u f fs gs course next =
      let (v, more) = Course-IsLawfullyShared t u course lawful in
      let ((first, _), _) = subst (λ hs. All (λ gs. All IsLawful gs) hs) next more in
      (first u.state v).1

  pub Own-IsStep : (t u : Shared S) → Own Valid request (Transition By) t u → IsStep t.state u.state
  Own-IsStep t u own k r held = elim (String-cases own.old.id k) [
    | inl here ↦
        let e : own.old ≡ r =
          some-injective own.old r (sym own.held ∙ ap (request t.state) here ∙ held) in
        (
          own.new,
          ground (arith, own.changed k, eq_iff own.old.id k),
          inr (subst (λ o. Transition By o own.new) e own.change),
        )
    | inr apart ↦ (r, ground (arith, own.changed k, eq_iff own.old.id k, held), inl refl)
  ]

  -- One step of a run: of another, or of the client.
  abbrev pub Step : Shared S → Shared S → Type 0
  Step x y = Act Valid request x y ⊎ Own Valid request (Transition By) x y

  pub Act-IsStep :
      (t m u : Shared S)
      → IsLawfulAlong t
      → Course Valid request (Transition By) t m
      → Act Valid request m u
      → IsStep m.state u.state
  Act-IsStep t m u lawful course (other f fs gs s) = lawful m f fs gs course refl
  Act-IsStep t m u lawful course (own_turn gs s) = λ k r held. (r, held, inl refl)
  Act-IsStep t m u lawful course (quiet gs s s' v' same) = λ k r held. (r, same k ∙ held, inl refl)
