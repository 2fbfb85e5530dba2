-- ===== src/Platform/Migrations/Order.antt =====
-- The order of the file names of internal/platform/sqlutil/migrations.go.
use mathlib.Core.List.{Perm}
use mathlib.Core.List.Perm
use review_workflow.Base.{
  ℕ, true, false, ◌≡◌, refl, Bool-cases, inl, inr, String, List, [], ◌∷◌, codes, All, arith,
}
use review_workflow.Platform.Migrations.{is_before, insert_name, sort_strings}

-- `a` comes no later than `b`.
abbrev pub NotAfter : String → String → Type 0
NotAfter a b = is_before (codes b) (codes a) ≡ false

before-asym : (a b : List ℕ) → is_before a b ≡ true → is_before b a ≡ false
unfolding is_before
before-asym a [] h = ground arith
before-asym [] (d ∷ ds) h = refl
before-asym (c ∷ cs) (d ∷ ds) h = ground (arith, before-asym cs ds)

not_before_trans :
    (a b c : List ℕ) → is_before b a ≡ false → is_before c b ≡ false → is_before c a ≡ false
unfolding is_before
not_before_trans [] b c h k = refl
not_before_trans (x ∷ a) [] c h k = ground arith
not_before_trans (x ∷ a) (y ∷ b) [] h k = ground arith
not_before_trans (x ∷ a) (y ∷ b) (z ∷ c) h k = ground (arith, not_before_trans a b c)

abbrev pub IsAscending : List String → Type 0
IsAscending [] = Unit
IsAscending (name ∷ names) = All (NotAfter name) names × IsAscending names

insert_name-Perm :
    (name : String) (names : List String) → Perm (insert_name name names) (name ∷ names)
unfolding insert_name
insert_name-Perm name [] = Perm.refl (name ∷ [])
insert_name-Perm name (first ∷ names) = elim (Bool-cases (is_before (codes first) (codes name))) [
  | inl e ↦
      rw e (Perm.trans (Perm.cons first (insert_name-Perm name names)) (Perm.swap name first names))
  | inr e ↦ rw e (Perm.refl (name ∷ first ∷ names))
]

All-insert_name :
    (P : String → Type 0) (name : String) (names : List String)
    → P name
    → All P names
    → All P (insert_name name names)
unfolding insert_name
All-insert_name P name [] p h = (p, tt)
All-insert_name P name (first ∷ names) p h =
    elim (Bool-cases (is_before (codes first) (codes name))) [
      | inl e ↦ rw e (h.0, All-insert_name P name names p h.1)
      | inr e ↦ rw e (p, h)
    ]

All-NotAfter :
    (a b : String) (names : List String)
    → NotAfter a b
    → All (NotAfter b) names
    → All (NotAfter a) names
All-NotAfter a b [] h k = tt
All-NotAfter a b (name ∷ names) h k =
    (not_before_trans (codes a) (codes b) (codes name) h k.0, All-NotAfter a b names h k.1)

insert_name-IsAscending :
    (name : String) (names : List String) → IsAscending names → IsAscending (insert_name name names)
unfolding insert_name
insert_name-IsAscending name [] h = (tt, tt)
insert_name-IsAscending name (first ∷ names) h =
    elim (Bool-cases (is_before (codes first) (codes name))) [
      | inl e ↦ rw e (
        All-insert_name (NotAfter first) name names (before-asym (codes first) (codes name) e) h.0,
        insert_name-IsAscending name names h.1,
      )
      | inr e ↦ rw e ((e, All-NotAfter name first names e h.0), h)
    ]

pub sort_strings-Perm : (names : List String) → Perm (sort_strings names) names
unfolding sort_strings
sort_strings-Perm [] = Perm.refl []
sort_strings-Perm (name ∷ names) =
    Perm.trans (insert_name-Perm name (sort_strings names))
      (Perm.cons name (sort_strings-Perm names))

pub sort_strings-IsAscending : (names : List String) → IsAscending (sort_strings names)
unfolding sort_strings
sort_strings-IsAscending [] = tt
sort_strings-IsAscending (name ∷ names) =
    insert_name-IsAscending name (sort_strings names) (sort_strings-IsAscending names)
