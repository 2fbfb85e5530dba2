-- ===== src/Workflow/Consistent.antt =====
-- The invariant of the stored data, for every request with its audit trail.
use review_workflow.Base.{
  ◌≡◌, refl, sym, ap, ◌∙◌, ◌≢◌, inl, inr, String-cases, String, none, some, List, [], ◌∷◌, ◌++◌,
  arith, Dict, lookup, insert, lookup-insert_self, lookup-insert_ne,
}
use mathlib.Core.Path.{subst}
use mathlib.Core.Option.{some-injective}
use mathlib.Core.List.{append_assoc, append-nil}
use review_workflow.Base.Int.{ℤ, pos, ◌<ℤ◌}
use review_workflow.Domain.{Request, AuditEntry}
use review_workflow.Repository.Memory.{Memory, slice_at, append_at}
use review_workflow.Repository.Memory.Listing.{IsMap, insert-IsMap}
use review_workflow.Application.Monad.{Service}
use review_workflow.Workflow.{
  EffectOf, EffectsOf, quiet, create, move, done, next, Move, submit, approve, reject, succeed,
  fail, remind, append_all,
}
use review_workflow.Workflow.Sound.{IsSound, Move-IsSound, draft-IsSound}

slice_at-append_at_self :
    (k : String) (e : AuditEntry) (m : Dict (List AuditEntry))
    → slice_at k (append_at k e m) ≡ slice_at k m ++ e ∷ []
unfolding append_at
slice_at-append_at_self k e m = ground (arith, lookup-insert_self k (slice_at k m ++ e ∷ []) m)

slice_at-append_at_ne :
    (k j : String) (e : AuditEntry) (m : Dict (List AuditEntry))
    → k ≢ j
    → slice_at j (append_at k e m) ≡ slice_at j m
unfolding append_at
slice_at-append_at_ne k j e m apart =
    ground (arith, lookup-insert_ne k j (slice_at k m ++ e ∷ []) m apart)

slice_at-append_all_self :
    (k : String) (es : List AuditEntry) (m : Dict (List AuditEntry))
    → slice_at k (append_all k es m) ≡ slice_at k m ++ es
slice_at-append_all_self k [] m = sym (append-nil (slice_at k m))
slice_at-append_all_self k (e ∷ es) m =
    slice_at-append_all_self k es (append_at k e m)
    ∙ ap (λ t. t ++ es) (slice_at-append_at_self k e m)
    ∙ append_assoc (slice_at k m) (e ∷ []) es

slice_at-append_all_ne :
    (k j : String) (es : List AuditEntry) (m : Dict (List AuditEntry))
    → k ≢ j
    → slice_at j (append_all k es m) ≡ slice_at j m
slice_at-append_all_ne k j [] m apart = refl
slice_at-append_all_ne k j (e ∷ es) m apart =
    slice_at-append_all_ne k j es (append_at k e m) apart ∙ slice_at-append_at_ne k j e m apart

pub record IsConsistent (max : ℤ) (s : Memory) : Type 0 where
  pub map : IsMap s.requests
  pub sound :
      (k : String) (r : Request) → lookup k s.requests ≡ some r → IsSound max (slice_at k s.audit) r
  pub no_orphans : (k : String) → lookup k s.requests ≡ none → slice_at k s.audit ≡ []

-- Writing a sound request under its identifier, with its entries, keeps the data consistent.
module _ (max : ℤ) (s s' : Memory) (q : Request) (es : List AuditEntry)
    (changed : s'.requests ≡ insert q.id q s.requests)
    (trail : s'.audit ≡ append_all q.id es s.audit)
    (sound_q : IsSound max (slice_at q.id s.audit ++ es) q) (c : IsConsistent max s) where
  write-IsSound :
      (k : String) (r : Request)
      → lookup k s'.requests ≡ some r
      → IsSound max (slice_at k s'.audit) r
  write-IsSound k r stored = elim (String-cases q.id k) [
    | inl here ↦
        let e : q ≡ r = some-injective q r (
          sym (lookup-insert_self q.id q s.requests)
          ∙ ap (λ j. lookup j (insert q.id q s.requests)) here
          ∙ ap (lookup k) (sym changed)
          ∙ stored) in
        subst (λ x. IsSound max (slice_at k s'.audit) x) e
          (subst (λ j. IsSound max (slice_at j s'.audit) q) here
            (rw (trail, slice_at-append_all_self q.id es s.audit) sound_q))
    | inr apart ↦
        rw (trail, slice_at-append_all_ne q.id k es s.audit apart)
          (c.sound k r (
            sym (lookup-insert_ne q.id k q s.requests apart)
            ∙ ap (lookup k) (sym changed)
            ∙ stored))
  ]

  write-no_orphans : (k : String) → lookup k s'.requests ≡ none → slice_at k s'.audit ≡ []
  write-no_orphans k absent = elim (String-cases q.id k) [
    | inl here ↦
        let e : some q ≡ none =
          sym (lookup-insert_self q.id q s.requests)
          ∙ ap (λ j. lookup j (insert q.id q s.requests)) here
          ∙ ap (lookup k) (sym changed)
          ∙ absent in
        cc
    | inr apart ↦
        rw (trail, slice_at-append_all_ne q.id k es s.audit apart)
          (c.no_orphans k (
            sym (lookup-insert_ne q.id k q s.requests apart)
            ∙ ap (lookup k) (sym changed)
            ∙ absent))
  ]

  write-IsConsistent : IsConsistent max s'
  write-IsConsistent = record {
    map = rw changed (insert-IsMap q.id q s.requests refl c.map);
    sound = write-IsSound;
    no_orphans = write-no_orphans;
  }

module _ (svc : Service Memory) (positive : pos 0 <ℤ svc.execution_max_attempts) where
  Move-id :
      {r r' : Request} {es : List AuditEntry}
      → Move svc.default_reviewer_id svc.execution_max_attempts r r' es
      → r'.id ≡ r.id
  Move-id (submit _ _ same _ _ _ _ _ _ _ _) = same.id_same
  Move-id (approve _ same _ _ _ _ _) = same.identity.id_same
  Move-id (reject _ same _ _ _ _ _) = same.identity.id_same
  Move-id (succeed _ same _ _ _ _ _) = same.identity.id_same
  Move-id (fail _ same _ _ _ _ _) = same.identity.id_same
  Move-id (remind _ same _ _ _ _ _) = same.identity.id_same

  pub Effect-IsConsistent :
      {s s' : Memory}
      → EffectOf svc s s'
      → IsConsistent svc.execution_max_attempts s
      → IsConsistent svc.execution_max_attempts s'
  Effect-IsConsistent {s} {s'} (quiet same trail) c = record {
    map = rw same c.map;
    sound = λ k r e. rw trail (c.sound k r (ap (lookup k) (sym same) ∙ e));
    no_orphans = λ k e. rw trail (c.no_orphans k (ap (lookup k) (sym same) ∙ e));
  }
  Effect-IsConsistent {s} {s'} (create r e new absent changed trail) c =
      write-IsConsistent svc.execution_max_attempts s s' r (e ∷ []) changed trail
        (rw (c.no_orphans r.id absent) (draft-IsSound svc.execution_max_attempts e r new)) c
  Effect-IsConsistent {s} {s'} (move r r' es m stored changed trail) c =
      let same = sym (Move-id m) in
      write-IsConsistent svc.execution_max_attempts s s' r' es
        (changed ∙ ap (λ k. insert k r' s.requests) same)
        (trail ∙ ap (λ k. append_all k es s.audit) same)
        (subst (λ k. IsSound svc.execution_max_attempts (slice_at k s.audit ++ es) r') same
          (Move-IsSound svc.default_reviewer_id svc.execution_max_attempts positive
            (slice_at r.id s.audit) r r' m (c.sound r.id r stored)))
        c

  pub Effects-IsConsistent :
      {s s' : Memory}
      → EffectsOf svc s s'
      → IsConsistent svc.execution_max_attempts s
      → IsConsistent svc.execution_max_attempts s'
  Effects-IsConsistent done c = c
  Effects-IsConsistent (next es e) c = Effect-IsConsistent e (Effects-IsConsistent es c)
