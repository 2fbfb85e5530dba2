-- ===== src/Repository/Memory/Query.antt =====
-- The listings of internal/repository/memory/store.go against selection, order and a prefix.
use review_workflow.Base.{
  ℕ, zero, suc, ◌+◌, take, ◌≡◌, refl, ap, ◌⊎◌, inl, inr, Bool, true, false, Bool-cases, ◌==◌, ◌||◌,
  ◌&&◌, eq_iff, String, List, [], ◌∷◌, ◌++◌, arith, All, values, if◌then◌else◌,
}
use mathlib.Core.List.{Perm, perm_middle}
use mathlib.Core.List.Perm
use review_workflow.Base.Int.{ℤ, pos, negsuc, pos_part, ltb_ℤ, leb_ℤ, ◌≤ℤ◌}
use review_workflow.Domain.{status_text, Time, Request, RequestFilter}
use review_workflow.Application.Errors.{ok}
use review_workflow.Repository.Memory.{
  Memory, insert_by, sort_by, select, matches_filter, list_requests, collect, needs_reminder,
  ready_for_execution, list_requests_needing_reminder, list_requests_ready_for_execution,
}

-- In ascending order of a time.
abbrev pub IsSortedBy : {A : Type 0} → (A → Time) → List A → Type 0
IsSortedBy time [] = Unit
IsSortedBy time (x ∷ xs) = All (λ y. time x ≤ℤ time y) xs × IsSortedBy time xs

module _ {A : Type 0} (time : A → Time) where
  insert_by-perm : (x : A) (xs : List A) → Perm (insert_by time x xs) (x ∷ xs)
  unfolding insert_by
  insert_by-perm x [] = Perm.refl (x ∷ [])
  insert_by-perm x (y ∷ ys) = elim (Bool-cases (ltb_ℤ (time y) (time x))) [
    | inl e ↦ rw e (Perm.trans (Perm.cons y (insert_by-perm x ys)) (Perm.swap x y ys))
    | inr e ↦ rw e (Perm.refl (x ∷ y ∷ ys))
  ]

  sort_by-perm : (xs : List A) → Perm (sort_by time xs) xs
  unfolding sort_by
  sort_by-perm [] = Perm.refl []
  sort_by-perm (x ∷ xs) =
      Perm.trans (insert_by-perm x (sort_by time xs)) (Perm.cons x (sort_by-perm xs))

  All-insert_by :
      (P : A → Type 0) (x : A) (xs : List A) → P x → All P xs → All P (insert_by time x xs)
  unfolding insert_by
  All-insert_by P x [] p h = (p, tt)
  All-insert_by P x (y ∷ ys) p h = elim (Bool-cases (ltb_ℤ (time y) (time x))) [
    | inl e ↦ rw e (h.0, All-insert_by P x ys p h.1)
    | inr e ↦ rw e (p, h)
  ]

  pub All-sort_by : (P : A → Type 0) (xs : List A) → All P xs → All P (sort_by time xs)
  unfolding sort_by
  All-sort_by P [] h = tt
  All-sort_by P (x ∷ xs) h = All-insert_by P x (sort_by time xs) h.0 (All-sort_by P xs h.1)

  below :
      (a b : Time) (xs : List A) → a ≤ℤ b → All (λ y. b ≤ℤ time y) xs → All (λ y. a ≤ℤ time y) xs
  below a b [] h k = tt
  below a b (x ∷ xs) h k = (omega arith, below a b xs h k.1)

  insert_by-IsSortedBy :
      (x : A) (xs : List A) → IsSortedBy time xs → IsSortedBy time (insert_by time x xs)
  unfolding insert_by
  insert_by-IsSortedBy x [] h = (tt, tt)
  insert_by-IsSortedBy x (y ∷ ys) h = elim (Bool-cases (ltb_ℤ (time y) (time x))) [
    | inl e ↦ rw e (
      All-insert_by (λ z. time y ≤ℤ time z) x ys (ground arith) h.0,
      insert_by-IsSortedBy x ys h.1,
    )
    | inr e ↦
        rw e
          (let le : time x ≤ℤ time y = ground arith in (le, below (time x) (time y) ys le h.0), h)
  ]

  sort_by-IsSortedBy : (xs : List A) → IsSortedBy time (sort_by time xs)
  unfolding sort_by
  sort_by-IsSortedBy [] = tt
  sort_by-IsSortedBy (x ∷ xs) = insert_by-IsSortedBy x (sort_by time xs) (sort_by-IsSortedBy xs)

abbrev pub created : Request → Time
created r = r.created_at

-- What a filter asks of a request: an empty text asks nothing.
abbrev pub Matches : RequestFilter → Request → Type 0
Matches filter r =
    ((filter.requester_id ≡ "") ⊎ (r.requester_id ≡ filter.requester_id))
    × ((filter.reviewer_id ≡ "") ⊎ (r.assigned_reviewer_id ≡ filter.reviewer_id))
    × ((status_text filter.status ≡ "") ⊎ (status_text r.status ≡ status_text filter.status))

both : (a b : Bool) → (a && b) ≡ true → (a ≡ true) × (b ≡ true)
both true b e = (refl, e)
both false b e = cc

wanted : (a b : String) → (a == "" || b == a) ≡ true → (a ≡ "") ⊎ (b ≡ a)
wanted a b e = elim (Bool-cases (a == "")) [
  | inl empty ↦ inl ((eq_iff a "").0 empty)
  | inr named ↦ inr (ground (arith, eq_iff b a))
]

wanted-true : (a b : String) → (a ≡ "") ⊎ (b ≡ a) → (a == "" || b == a) ≡ true
wanted-true a b (inl e) = ground (arith, eq_iff a "")
wanted-true a b (inr e) = ground (arith, eq_iff b a)

matches_filter-Matches :
    (filter : RequestFilter) (r : Request) → matches_filter filter r ≡ true → Matches filter r
unfolding matches_filter
matches_filter-Matches filter r e =
    let (rest, third) = both _ _ e in
    let (first_, second) = both _ _ rest in (wanted _ _ first_, wanted _ _ second, wanted _ _ third)

Matches-matches_filter :
    (filter : RequestFilter) (r : Request) → Matches filter r → matches_filter filter r ≡ true
unfolding matches_filter
Matches-matches_filter filter r (a, b, c) =
    rw (wanted-true _ _ a, wanted-true _ _ b, wanted-true _ _ c) refl

-- What a selection takes and what it leaves are all there is.
select-Perm :
    {A : Type 0} (p : A → Bool) (P : A → Type 0)
    → ((x : A) → p x ≡ true → P x)
    → ((x : A) → P x → p x ≡ true)
    → (xs : List A)
    → (others : List A) × Perm (select p xs ++ others) xs
      × All P (select p xs)
      × All (λ x. P x → ⊥) others
unfolding select
select-Perm p P sound complete [] = ([], Perm.refl [], tt, tt)
select-Perm p P sound complete (x ∷ xs) =
    let (others, perm, all, none_) = select-Perm p P sound complete xs in
    elim (Bool-cases (p x)) [
      | inl e ↦ rw e (others, Perm.cons x perm, (sound x e, all), none_)
      | inr e ↦ rw e (
        x ∷ others,
        Perm.trans (perm_middle (select p xs) others) (Perm.cons x perm),
        all,
        ((λ is. absurd (cc (complete x is, e))), none_),
      )
    ]

-- A listing by filter holds the stored requests that match, each as often as it is stored, in
-- order of creation, and changes nothing: with the stored requests that do not match, it makes up
-- all that are stored. A request matches if its requester, its assigned reviewer and its status are
-- those of the filter, where the filter's text is not empty.
pub list_requests_correct :
    (filter : RequestFilter) (s : Memory)
    → (rs others : List Request) × (list_requests filter s ≡ (ok rs, s))
      × Perm (rs ++ others) (values s.requests)
      × All (Matches filter) rs
      × All (λ r. Matches filter r → ⊥) others
      × IsSortedBy created rs
unfolding list_requests
list_requests_correct filter s =
    let found = select (matches_filter filter) (values s.requests) in
    let (others, perm, all, none_) =
      select-Perm (matches_filter filter) (Matches filter) (matches_filter-Matches filter)
        (Matches-matches_filter filter) (values s.requests) in
    (
      sort_by created found,
      others,
      refl,
      Perm.trans (Perm.append_right others (sort_by-perm created found)) perm,
      All-sort_by created (Matches filter) found all,
      none_,
      sort_by-IsSortedBy created found,
    )

-- The first `limit` elements, or all of them where the limit is not positive.
abbrev pub first : {A : Type 0} → ℤ → List A → List A
first limit xs = if leb_ℤ limit (pos 0) then xs else take (pos_part limit) xs

module _ {A : Type 0} (p : A → Bool) where
  -- `k` more are wanted after the next.
  collect-limited :
      (k l n : ℕ) (xs : List A)
      → l ≡ n + k
      → collect p (pos (suc l)) n xs ≡ take (suc k) (select p xs)
  unfolding collect select
  collect-limited k l n [] h = refl
  collect-limited zero l n (x ∷ xs) h = ground (arith, collect-limited zero l n xs h)
  collect-limited (suc k) l n (x ∷ xs) h =
      ground (arith, collect-limited (suc k) l n xs h, collect-limited k l (suc n) xs)

  collect-unlimited :
      (limit : ℤ) (n : ℕ) (xs : List A) → limit ≤ℤ pos 0 → collect p limit n xs ≡ select p xs
  unfolding collect select
  collect-unlimited limit n [] h = refl
  collect-unlimited limit n (x ∷ xs) h =
      ground (arith, collect-unlimited limit n xs h, collect-unlimited limit (suc n) xs h)

  pub collect-first : (limit : ℤ) (xs : List A) → collect p limit 0 xs ≡ first limit (select p xs)
  collect-first (pos zero) xs = collect-unlimited (pos zero) 0 xs (omega arith)
  collect-first (pos (suc l)) xs = ground (arith, collect-limited l l 0 xs)
  collect-first (negsuc n) xs = ground (arith, collect-unlimited (negsuc n) 0 xs)

-- The listings of due requests hold the first `limit` stored requests that are due, in the order of
-- the map, or all of them where the limit is not positive; they change nothing.
pub due-first :
    (before : Time) (limit : ℤ) (s : Memory)
    → (list_requests_needing_reminder before limit s
        ≡ (ok (first limit (select (needs_reminder before) (values s.requests))), s))
      × (list_requests_ready_for_execution before limit s
          ≡ (ok (first limit (select (ready_for_execution before) (values s.requests))), s))
unfolding list_requests_needing_reminder list_requests_ready_for_execution
due-first before limit s = (
  ap (λ rs. (ok rs, s)) (collect-first (needs_reminder before) limit (values s.requests)),
  ap (λ rs. (ok rs, s)) (collect-first (ready_for_execution before) limit (values s.requests)),
)
