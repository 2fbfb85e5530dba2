-- ===== src/Application/Contract/Among/Rules.antt =====
-- The rules for the service's actions, for a client that shares its store with polite others.
use mathlib.Core.Option.{some-injective}
use review_workflow.Base.{
  ◌≡◌, refl, sym, ap, ◌∙◌, inr, String, ◌==◌, eq_iff, Option, some, List, [], ◌∷◌, All, arith,
  if◌then◌else◌,
}
use review_workflow.Domain.{Request}
use review_workflow.Application.Errors.{Result, ok, err}
use review_workflow.Application.Interfaces.{Op, Store}
use review_workflow.Application.Contract.{
  Contract, IsPending, IsRunnable, Quiet, Agrees, UpdateLaw, Lists,
}
use review_workflow.Application.Contract.Protocol.{Protocol, Waits, Listing}
use review_workflow.Application.Contract.Moved.{read-held, read-keyed}
use review_workflow.Application.Contract.Alone.{Listing-Lists}
use review_workflow.Application.Contract.Later.{IsLater-refl, IsLater-same}
use review_workflow.Application.Contract.Among.{
  Shared, settle, interrupted, among, IsShared, none_yet,
}
use review_workflow.Application.Contract.Among.Steps.{
  Knows, Between, Ends, Between-refl, Between-trans, Ends-none, Ends-before, Ends-after,
  quiet-Between, settle-Between,
}

module _ {S : Type 0} {store : Store S} {Valid : S → Type 0} {request : S → String → Option Request}
    (c : Contract store Valid request) where
  abbrev pub Good : Shared S → Type 0
  Good = IsShared Valid request

  pub Quiet-Waits :
      {A : Type 0} (op : Op S A)
      → Quiet Valid request op
      → Waits Good (Between Valid request) (interrupted op)
  Quiet-Waits op q t v =
      let b = settle-Between Valid request t v in
      let (v', same) = q (settle t).state b.0.0 in
      Between-trans Valid request t (settle t) (interrupted op t).1 b (
        quiet-Between Valid request (settle t).others (settle t).state (op (settle t).state).1 b.0
          v' same)

  -- What is held is known.
  held-Knows :
      (t : Shared S) (r : Request)
      → Good t
      → request t.state r.id ≡ some r
      → Knows Valid request r t
  held-Knows t r v held = (r, 0, held, IsLater-refl r, omega (arith, v.2))

  pub read-Knows :
      (id : String) (t : Shared S) (r : Request)
      → Good t
      → (interrupted (store.get_request id) t).0 ≡ ok r
      → Knows Valid request r (interrupted (store.get_request id) t).1 × (r.id ≡ id)
  read-Knows id t r v found =
      let b = settle-Between Valid request t v in
      let s = (settle t).state in
      (
        held-Knows (interrupted (store.get_request id) t).1 r
            (Quiet-Waits (store.get_request id) (c.get_quiet id) t v).0
            ((c.get_quiet id s b.0.0).1 r.id ∙ read-held c id s r b.0.0 found),
        read-keyed c id s r b.0.0 found,
      )

  All-Knows :
      (t : Shared S) (rs : List Request)
      → Good t
      → All (λ r. request t.state r.id ≡ some r) rs
      → All (λ r. Knows Valid request r t) rs
  All-Knows t [] v held = tt
  All-Knows t (r ∷ rs) v (held, rest) = (held-Knows t r v held, All-Knows t rs v rest)

  -- A request with the version that was read is the one that was read.
  known-same :
      (t : Shared S) (old before : Request)
      → Knows Valid request old t
      → request t.state old.id ≡ some before
      → before.version ≡ old.version
      → before ≡ old
  known-same t old before (q, n, held, later, few) was version =
      let e : before ≡ q = some-injective before q (sym was ∙ held) in
      e ∙ IsLater-same old q n later (omega arith) (ap (λ r. r.version) (sym e) ∙ version)

  module _ (P : Request → Request → Type 0) (req old : Request) (same : req.id ≡ old.id)
      (p : (new : Request) → Agrees new req → P old new) (t : Shared S) (v : Good t)
      (known : Knows Valid request old t) where
    updated-Ends :
        (x : Result (Unit {0}) × S)
        → Valid x.1
        → UpdateLaw request req old.version t.state x
        → Ends Valid request P t (record { state = x.1; others = t.others })
    updated-Ends (err e, s') v' law =
        Ends-none Valid request P t (record { state = s'; others = t.others })
          (quiet-Between Valid request t.others t.state s' v v' law)
    updated-Ends (ok u, s') v' (before, new, was, version, agrees, now_) =
        let was' : request t.state old.id ≡ some before = ap (request t.state) (sym same) ∙ was in
        let e : before ≡ old = known-same t old before known was' version in
        let changed : (k : String)
            → request s' k ≡ (if old.id == k then some new else request t.state k) =
          λ k. now_ k ∙ ap (λ i. if i == k then some new else request t.state k) same in
        (
          (v', v.1, v.2),
          inr (
            t,
            record { state = s'; others = t.others },
            none_yet,
            none_yet,
            (
              record {
                old = old;
                new = new;
                held = was' ∙ ap some e;
                change = p new agrees;
                changed = changed;
                valid = v';
                same_others = refl;
              },
              λ r apart (q, n, held, later, few).
                  (q, n, ground (arith, changed r.id, eq_iff old.id r.id, apart, held), later, few),
            ),
          ),
        )

  pub update-Ends :
      (P : Request → Request → Type 0) (req old : Request) (t : Shared S)
      → Good t
      → Knows Valid request old t
      → req.id ≡ old.id
      → ((new : Request) → Agrees new req → P old new)
      → Ends Valid request P t (interrupted (store.update_request req old.version) t).1
  update-Ends P req old t v known same p =
      let b = settle-Between Valid request t v in
      let t' = settle t in
      let (v', law) = c.updates req old.version t'.state b.0.0 in
      Ends-before Valid request P t t' (interrupted (store.update_request req old.version) t).1 b (
        updated-Ends P req old same p t' b.0 (b.2 old known)
          (store.update_request req old.version t'.state) v' law)

  pub Lists-Waits :
      (Due : Request → Type 0) (op : Op S (List Request))
      → Lists Valid request Due op
      → Waits Good (Between Valid request) (interrupted op)
  Lists-Waits Due op lists = Quiet-Waits op (λ s v. let (v', same, law) = lists s v in (v', same))

  pub Lists-Knows :
      (Due : Request → Type 0) (op : Op S (List Request))
      → Lists Valid request Due op
      → Listing Good (Knows Valid request) Due (interrupted op)
  Lists-Knows Due op lists t rs v e =
      let b = settle-Between Valid request t v in
      let (held, distinct, due) = Listing-Lists c Due op lists (settle t).state rs b.0.0 e in
      (All-Knows (interrupted op t).1 rs (Lists-Waits Due op lists t v).0 held, distinct, due)

  abbrev pub shared : Protocol (among store)
  shared = record {
    Good = Good;
    Between = Between Valid request;
    Knows = Knows Valid request;
    Ends = Ends Valid request;
    rest = Between-refl Valid request;
    trans = Between-trans Valid request;
    good = λ s t b. b.0;
    later = λ r s t b. b.2 r;
    ends-none = Ends-none Valid request;
    ends-before = Ends-before Valid request;
    ends-after = Ends-after Valid request;
    ends-good = λ P s t m. m.0;
    gets = λ id t r v found. read-Knows id t r v found;
    updates = update-Ends;
    get_waits = λ id. Quiet-Waits (store.get_request id) (c.get_quiet id);
    audit_waits = λ entry. Quiet-Waits (store.append_audit entry) (c.audit_quiet entry);
    list_waits = λ filter. Quiet-Waits (store.list_requests filter) (c.list_quiet filter);
    list_audit_waits = λ id. Quiet-Waits (store.list_audit id) (c.list_audit_quiet id);
    review_waits = λ review. Quiet-Waits (store.create_review review) (c.review_quiet review);
    key_read_waits =
        λ scope key. Quiet-Waits (store.get_idempotency scope key) (c.key_read_quiet scope key);
    key_waits = λ rec. Quiet-Waits (store.create_idempotency rec) (c.key_quiet rec);
    run_waits = λ run. Quiet-Waits (store.append_job_run run) (c.run_quiet run);
    reminders_wait = λ before limit.
        Lists-Waits IsPending (store.list_requests_needing_reminder before limit)
          (c.reminders_listed before limit);
    reminders_listed = λ before limit.
        Lists-Knows IsPending (store.list_requests_needing_reminder before limit)
          (c.reminders_listed before limit);
    executions_wait = λ before limit.
        Lists-Waits IsRunnable (store.list_requests_ready_for_execution before limit)
          (c.executions_listed before limit);
    executions_listed = λ before limit.
        Lists-Knows IsRunnable (store.list_requests_ready_for_execution before limit)
          (c.executions_listed before limit);
  }
