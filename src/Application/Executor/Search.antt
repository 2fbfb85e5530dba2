-- ===== src/Application/Executor/Search.antt =====
-- The simulated executor of internal/application/executor.go and `strings.Contains`, against the
-- places where a part can stand in a text.
use review_workflow.Base.{
  ℕ, ◌≡◌, ◌≢◌, ◌↔◌, refl, ap, ◌∙◌, true, none, List, [], ◌∷◌, ◌++◌, map, codes, arith, Bool-cases,
  inl, inr,
}
use review_workflow.Domain.{Request}
use review_workflow.Application.Executor.{to_lower, has_prefix, contains, simulated_execute}

has_prefix_sound : (ps cs : List ℕ) → has_prefix ps cs ≡ true → (rest : List ℕ) × (cs ≡ ps ++ rest)
unfolding has_prefix
has_prefix_sound [] cs h = (cs, refl)
has_prefix_sound (p ∷ ps) [] h = cc
has_prefix_sound (p ∷ ps) (c ∷ cs) h =
    let (rest, e) = has_prefix_sound ps cs (ground arith) in (rest, ground arith)

has_prefix-append : (ps rest : List ℕ) → has_prefix ps (ps ++ rest) ≡ true
unfolding has_prefix
has_prefix-append [] rest = refl
has_prefix-append (p ∷ ps) rest = ground (arith, has_prefix-append ps rest)

-- `strings.Contains` finds the part wherever it stands.
pub contains_sound :
    (part cs : List ℕ)
    → contains part cs ≡ true
    → (before after : List ℕ) × (cs ≡ before ++ (part ++ after))
unfolding contains
contains_sound part [] h = let (rest, e) = has_prefix_sound part [] h in ([], rest, e)
contains_sound part (c ∷ cs) h = elim (Bool-cases (has_prefix part (c ∷ cs))) [
  | inl e ↦ let (rest, f) = has_prefix_sound part (c ∷ cs) e in ([], rest, f)
  | inr e ↦
      let (before, after, f) = contains_sound part cs (ground arith) in
      (c ∷ before, after, ap (λ t. c ∷ t) f)
]

contains-of_prefix : (part cs : List ℕ) → has_prefix part cs ≡ true → contains part cs ≡ true
unfolding contains
contains-of_prefix part [] h = h
contains-of_prefix part (c ∷ cs) h = ground arith

pub contains_complete :
    (part before after : List ℕ) → contains part (before ++ (part ++ after)) ≡ true
unfolding contains
contains_complete part [] after = contains-of_prefix part _ (has_prefix-append part after)
contains_complete part (b ∷ before) after = ground (arith, contains_complete part before after)

simulated_execute-fails :
    (req : Request)
    → (simulated_execute req ≢ none)
      ↔ (contains (codes "fail") (map to_lower (codes req.target_resource)) ≡ true)
unfolding simulated_execute
simulated_execute-fails req =
    elim (Bool-cases (contains (codes "fail") (map to_lower (codes req.target_resource)))) [
      | inl e ↦ (λ _. e, λ _. rw (e, simulated_execute) (λ h. cc))
      | inr e ↦ (λ h. absurd (h (ground arith)), λ h. cc (e, h))
    ]

-- The executor fails on a request exactly if the lower case of the target holds "fail".
pub simulated_execute_iff :
    (req : Request)
    → (simulated_execute req ≢ none) ↔ (
        (before : List ℕ) × (after : List ℕ) × (map to_lower (codes req.target_resource)
          ≡ before ++ (codes "fail" ++ after)))
simulated_execute_iff req =
    let target = map to_lower (codes req.target_resource) in
    (
      λ failed. contains_sound (codes "fail") target ((simulated_execute-fails req).0 failed),
      λ (before, after, e).
          (simulated_execute-fails req).1
            (ap (contains (codes "fail")) e ∙ contains_complete (codes "fail") before after),
    )
