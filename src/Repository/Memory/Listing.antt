-- ===== src/Repository/Memory/Listing.antt =====
-- The requests of the memory store as a Go map: every request under its own identifier, no key
-- twice. What a listing of due requests holds.
use review_workflow.Base.{
  ℕ, suc, ◌≡◌, refl, ap, ◌∙◌, ◌≢◌, Bool, true, false, none, some, String, List, [], ◌∷◌, arith,
  Dict, lookup, insert, values, lookup-insert, lookup-cons_ne, lookup-cons_self, eq_iff, All,
  if◌then◌else◌,
}
use review_workflow.Base.Int.{ℤ}
use review_workflow.Domain.{Request}
use review_workflow.Repository.Memory.{collect, enough}

abbrev pub IsMap : Dict Request → Type 0
IsMap [] = Unit
IsMap ((k, r) ∷ m) = (r.id ≡ k) × (lookup k m ≡ none) × IsMap m

pub IsMap-keyed :
    (m : Dict Request) → IsMap m → (k : String) (r : Request) → lookup k m ≡ some r → r.id ≡ k
unfolding lookup
IsMap-keyed [] h k r e = cc
IsMap-keyed ((j, q) ∷ m) h k r e = ground (arith, eq_iff j k, IsMap-keyed m h.2 k r)

pub insert-IsMap :
    (k : String) (r : Request) (m : Dict Request) → r.id ≡ k → IsMap m → IsMap (insert k r m)
unfolding insert lookup
insert-IsMap k r [] e h = (e, refl, tt)
insert-IsMap k r ((j, q) ∷ m) e h =
    ground (arith, eq_iff j k, eq_iff k j, insert-IsMap k r m e h.2, lookup-insert k j r m)

-- Requests that are stored, are selected by `p`, and have identifiers of their own.
abbrev pub Listed : (Request → Bool) → Dict Request → List Request → Type 0
Listed p m [] = Unit
Listed p m (r ∷ rs) =
    (lookup r.id m ≡ some r) × (p r ≡ true) × All (λ q. r.id ≢ q.id) rs × Listed p m rs

-- A listing stays valid where only other keys have changed.
pub Listed-elsewhere :
    (p : Request → Bool) (k : String) (m m' : Dict Request) (rs : List Request)
    → All (λ q. k ≢ q.id) rs
    → ((j : String) → k ≢ j → lookup j m' ≡ lookup j m)
    → Listed p m rs
    → Listed p m' rs
Listed-elsewhere p k m m' [] apart agree h = tt
Listed-elsewhere p k m m' (r ∷ rs) apart agree h =
    (agree r.id apart.0 ∙ h.0, h.1, h.2, Listed-elsewhere p k m m' rs apart.1 agree h.3)

values-ne :
    (k : String) (m : Dict Request) → IsMap m → lookup k m ≡ none → All (λ q. k ≢ q.id) (values m)
unfolding lookup values
values-ne k [] h e = tt
values-ne k ((j, q) ∷ m) h e = ground (arith, eq_iff j k, values-ne k m h.2)

All-if :
    (P : Request → Type 0) (b : Bool) (xs ys : List Request)
    → All P xs
    → All P ys
    → All P (if b then xs else ys)
All-if P true xs ys hx hy = hx
All-if P false xs ys hx hy = hy

All-collect :
    (P : Request → Type 0) (p : Request → Bool) (limit : ℤ) (n : ℕ) (rs : List Request)
    → All P rs
    → All P (collect p limit n rs)
unfolding collect
All-collect P p limit n [] h = tt
All-collect P p limit n (r ∷ rs) h =
    All-if P (p r) _ _
      (h.0, All-if P (enough limit (suc n)) [] _ tt (All-collect P p limit (suc n) rs h.1))
      (All-collect P p limit n rs h.1)

Listed-if :
    (p : Request → Bool) (m : Dict Request) (b : Bool) (xs ys : List Request)
    → (b ≡ true → Listed p m xs)
    → Listed p m ys
    → Listed p m (if b then xs else ys)
Listed-if p m true xs ys hx hy = hx refl
Listed-if p m false xs ys hx hy = hy

-- `m` is a part of the map `whole`.
Listed-collect_part :
    (p : Request → Bool) (limit : ℤ) (n : ℕ) (whole m : Dict Request)
    → ((k : String) (r : Request) → lookup k m ≡ some r → lookup k whole ≡ some r)
    → IsMap m
    → Listed p whole (collect p limit n (values m))
unfolding collect values
Listed-collect_part p limit n whole [] part h = tt
Listed-collect_part p limit n whole ((k, r) ∷ m) part h =
    let absent = h.1 in
    let rest = λ (i : ℕ).
      Listed-collect_part p limit i whole m
        (λ j q e. part j q (lookup-cons_ne k j r m (λ same. cc) ∙ e)) h.2 in
    let apart =
      All-collect (λ q. r.id ≢ q.id) p limit (suc n) (values m)
        (values-ne r.id m h.2 (ap (λ j. lookup j m) h.0 ∙ absent)) in
    Listed-if p whole (p r) _ _
      (λ selected. (
        part r.id r (ap (λ j. lookup j ((k, r) ∷ m)) h.0 ∙ lookup-cons_self k r m),
        selected,
        All-if (λ q. r.id ≢ q.id) (enough limit (suc n)) [] _ tt apart,
        Listed-if p whole (enough limit (suc n)) [] _ (λ _. tt) (rest (suc n)),
      ))
      (rest n)

-- What the listings of due requests hold.
pub Listed-collect :
    (p : Request → Bool) (limit : ℤ) (m : Dict Request)
    → IsMap m
    → Listed p m (collect p limit 0 (values m))
Listed-collect p limit m h = Listed-collect_part p limit 0 m m (λ k r e. e) h
