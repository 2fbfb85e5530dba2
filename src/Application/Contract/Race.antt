-- ===== src/Application/Contract/Race.antt =====
-- Two calls of a store with the contract: two updates that expect the same version
-- (docs/failure-scenarios.md, "Concurrent review attempts"), and a read of what was created.
use review_workflow.Base.{◌≡◌, ◌≢◌, sym, ap, ◌∙◌, some, String, eq_iff, arith, Option}
use mathlib.Core.Path.{subst}
use mathlib.Core.Option.{some-injective}
use review_workflow.Base.Int.{ℤ}
use review_workflow.Domain.{Request}
use review_workflow.Application.Errors.{not_found, Result, ok, err}
use review_workflow.Application.Interfaces.{Store}
use review_workflow.Application.Contract.{Contract, Agrees, UpdateLaw, CreateLaw, GetLaw}
use review_workflow.Application.Contract.Moved.{Same}

-- A read of what was stored as `new`.
abbrev pub Reads : Request → Result Request → Type 0
Reads req (ok found) = Agrees found req × (found.id ≡ req.id)
Reads req (err e) = e.kind ≢ not_found

module _ {S : Type 0} {store : Store S} {Valid : S → Type 0} {request : S → String → Option Request}
    (c : Contract store Valid request) where
  -- An accepted update leaves its version.
  accepted-version :
      (req : Request) (expected : ℤ) (s : S) (x : Result (Unit {0}) × S)
      → UpdateLaw request req expected s x
      → x.0 ≡ ok tt
      → (new : Request) × (request x.1 req.id ≡ some new) × (new.version ≡ req.version)
  accepted-version req expected s (err e, s') law accepted = cc
  accepted-version req expected s (ok u, s') (old, new, was, version, agrees, now_) accepted =
      (new, ground (arith, now_ req.id, eq_iff req.id req.id), agrees.version_kept)

  accepted-expected :
      (req : Request) (expected : ℤ) (s : S) (x : Result (Unit {0}) × S)
      → UpdateLaw request req expected s x
      → x.0 ≡ ok tt
      → (old : Request) × (request s req.id ≡ some old) × (old.version ≡ expected)
  accepted-expected req expected s (err e, s') law accepted = cc
  accepted-expected req expected s (ok u, s') (old, new, was, version, agrees, now_) accepted =
      (old, was, version)

  -- Of two updates of one request that expect the same version, where the first moves the version
  -- on, only one is accepted, whatever changes no request in between.
  pub updates-win_once :
      (req req' : Request) (expected : ℤ) (s t : S)
      → Valid s
      → req'.id ≡ req.id
      → req.version ≢ expected
      → (store.update_request req expected s).0 ≡ ok tt
      → Same c (store.update_request req expected s).1 t
      → (store.update_request req' expected t).0 ≢ ok tt
  updates-win_once req req' expected s t v same bumped first (v', between) second =
      let (_, law) = c.updates req expected s v in
      let (_, law') = c.updates req' expected t v' in
      let (new, now_, version) = accepted-version req expected s _ law first in
      let (old, was, version') = accepted-expected req' expected t _ law' second in
      let e : new ≡ old =
        some-injective new old
          (sym now_ ∙ sym (between req.id) ∙ ap (request t) (sym same) ∙ was) in
      bumped (sym version ∙ ap (λ r. r.version) e ∙ version')

  read-Reads :
      (req new : Request) (t : S) (result : Result Request)
      → Valid t
      → Agrees new req
      → request t req.id ≡ some new
      → GetLaw request req.id t result
      → Reads req result
  read-Reads req new t (ok found) v agrees is law =
      let e : new ≡ found = some-injective new found (sym is ∙ law) in
      (subst (λ r. Agrees r req) e agrees, c.keyed t v req.id found law)
  read-Reads req new t (err e) v agrees is law = λ missing. cc (law missing, is)

  created :
      (req : Request) (s : S) (x : Result (Unit {0}) × S)
      → CreateLaw request req s x
      → x.0 ≡ ok tt
      → (new : Request) × Agrees new req × (request x.1 req.id ≡ some new)
  created req s (err e, s') law accepted = cc
  created req s (ok u, s') (new, agrees, now_) accepted =
      (new, agrees, ground (arith, now_ req.id, eq_iff req.id req.id))

  -- What was created is read back.
  pub create_request-get_request :
      (req : Request) (s t : S)
      → Valid s
      → (store.create_request req s).0 ≡ ok tt
      → Same c (store.create_request req s).1 t
      → Reads req (store.get_request req.id t).0
  create_request-get_request req s t v accepted (v', between) =
      let (new, agrees, now_) = created req s _ (c.creates req s v).1 accepted in
      read-Reads req new t _ v' agrees (between req.id ∙ now_) (c.gets req.id t v')
