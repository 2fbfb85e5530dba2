-- ===== src/Application/Contract/Alone.antt =====
-- The rules for the service's actions, for a client that is alone with a store that has the contract.
use review_workflow.Base.{◌≡◌, refl, sym, ap, ◌∙◌, String, Option, some, List, [], ◌∷◌, All}
use mathlib.Core.Path.{subst}
use mathlib.Core.Option.{some-injective}
use review_workflow.Domain.{Request}
use review_workflow.Application.Errors.{Result, ok}
use review_workflow.Application.Interfaces.{Op, Store}
use review_workflow.Application.Contract.{
  Contract, Agrees, SameRequests, ListLaw, Lists, IsDistinct,
}
use review_workflow.Application.Contract.Protocol.{Protocol, Listing}
use review_workflow.Application.Contract.Moved.{
  Same, Same-trans, Moved, Moved-Same, Moved-before, Moved-after, Moved-updated, read-held,
  read-keyed,
}

module _ {S : Type 0} {store : Store S} {Valid : S → Type 0} {request : S → String → Option Request}
    (c : Contract store Valid request) where
  abbrev Holds : Request → S → Type 0
  Holds r s = request s r.id ≡ some r

  pub AllHeld-Same :
      (s t : S)
      → SameRequests request s t
      → (rs : List Request) → All (λ r. Holds r s) rs
      → All (λ r. Holds r t) rs
  AllHeld-Same s t same [] held = tt
  AllHeld-Same s t same (r ∷ rs) held = (same r.id ∙ held.0, AllHeld-Same s t same rs held.1)

  listed :
      (Due : Request → Type 0) (s t : S) (x : Result (List Request)) (rs : List Request)
      → SameRequests request s t
      → ListLaw request Due s x
      → x ≡ ok rs
      → All (λ r. Holds r t) rs × IsDistinct rs × All Due rs
  listed Due s t x rs same law e =
      let (held, distinct, due) = subst (ListLaw request Due s) e law in
      (AllHeld-Same s t same rs held, distinct, due)

  pub Listing-Lists :
      (Due : Request → Type 0) (op : Op S (List Request))
      → Lists Valid request Due op
      → Listing Valid Holds Due op
  Listing-Lists Due op lists s rs v e =
      let (v', same, law) = lists s v in listed Due s (op s).1 (op s).0 rs same law e

  pub held-updated :
      (P : Request → Request → Type 0) (req old : Request) (s : S)
      → Valid s
      → Holds old s
      → req.id ≡ old.id
      → ((new : Request) → Agrees new req → P old new)
      → Moved c P s (store.update_request req old.version s).1
  held-updated P req old s v held same q =
      let (v', law) = c.updates req old.version s v in
      Moved-updated c P req old old.version s (store.update_request req old.version s)
        (λ before was version. some-injective before old (sym was ∙ ap (request s) same ∙ held)) q
        v' law

  abbrev pub alone : Protocol store
  alone = record {
    Good = Valid;
    Between = Same c;
    Knows = Holds;
    Ends = Moved c;
    rest = λ s v. (v, λ k. refl);
    trans = Same-trans c;
    good = λ s t b. b.0;
    later = λ r s t b held. b.1 r.id ∙ held;
    ends-none = Moved-Same c;
    ends-before = Moved-before c;
    ends-after = Moved-after c;
    ends-good = λ P s t m. m.0;
    gets = λ id s r v found.
        ((c.get_quiet id s v).1 r.id ∙ read-held c id s r v found, read-keyed c id s r v found);
    updates = held-updated;
    get_waits = c.get_quiet;
    audit_waits = c.audit_quiet;
    list_waits = c.list_quiet;
    list_audit_waits = c.list_audit_quiet;
    review_waits = c.review_quiet;
    key_read_waits = c.key_read_quiet;
    key_waits = c.key_quiet;
    run_waits = c.run_quiet;
    reminders_wait =
        λ before limit s v. let (v', same, law) = c.reminders_listed before limit s v in (v', same);
    reminders_listed = λ before limit. Listing-Lists _ _ (c.reminders_listed before limit);
    executions_wait = λ before limit s v.
        let (v', same, law) = c.executions_listed before limit s v in (v', same);
    executions_listed = λ before limit. Listing-Lists _ _ (c.executions_listed before limit);
  }
