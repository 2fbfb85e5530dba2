-- ===== src/Platform/Migrations/Names.antt =====
-- Which entries of the directory internal/platform/sqlutil/migrations.go takes.
use mathlib.Core.List.{Perm, perm_middle}
use mathlib.Core.List.Perm
use review_workflow.Base.{
  ℕ, ◌≡◌, refl, ap, Bool, true, false, Bool-cases, inl, inr, ◌||◌, List, [], ◌∷◌, ◌++◌, All, codes,
  map, arith,
}
use review_workflow.Platform.Migrations.{
  DirEntry, same_codes, has_suffix, is_skipped, migration_names,
}

-- A file whose name ends in `.sql`.
abbrev pub IsMigration : DirEntry → Type 0
IsMigration entry =
    (entry.is_dir ≡ false) × ((before : List ℕ) × (codes entry.name ≡ before ++ codes ".sql"))

same_codes-eq : (cs ds : List ℕ) → same_codes cs ds ≡ true → cs ≡ ds
unfolding same_codes
same_codes-eq [] [] e = refl
same_codes-eq [] (d ∷ ds) e = cc
same_codes-eq (c ∷ cs) [] e = cc
same_codes-eq (c ∷ cs) (d ∷ ds) e = ground (arith, same_codes-eq cs ds)

same_codes_refl : (cs : List ℕ) → same_codes cs cs ≡ true
unfolding same_codes
same_codes_refl [] = refl
same_codes_refl (c ∷ cs) = ground (arith, same_codes_refl cs)

or-true : (a b : Bool) → b ≡ true → (a || b) ≡ true
or-true true b e = refl
or-true false b e = e

has_suffix-append : (suffix before : List ℕ) → has_suffix suffix (before ++ suffix) ≡ true
unfolding has_suffix
has_suffix-append [] [] = same_codes_refl []
has_suffix-append (c ∷ suffix) [] = rw (same_codes_refl (c ∷ suffix)) refl
has_suffix-append suffix (c ∷ before) =
    or-true (same_codes suffix (c ∷ (before ++ suffix))) _ (has_suffix-append suffix before)

has_suffix-before :
    (suffix cs : List ℕ) → has_suffix suffix cs ≡ true → (before : List ℕ) × (cs ≡ before ++ suffix)
unfolding has_suffix
has_suffix-before suffix [] e = ([], ground (arith, same_codes-eq suffix []))
has_suffix-before suffix (c ∷ cs) e = elim (Bool-cases (same_codes suffix (c ∷ cs))) [
  | inl same ↦ ([], ground (arith, same_codes-eq suffix (c ∷ cs) same))
  | inr other ↦
      let (before, later) = has_suffix-before suffix cs (ground arith) in
      (c ∷ before, ap (λ ds. c ∷ ds) later)
]

taken-IsMigration : (entry : DirEntry) → is_skipped entry ≡ false → IsMigration entry
unfolding is_skipped
taken-IsMigration entry e =
    (ground arith, has_suffix-before (codes ".sql") (codes entry.name) (ground arith))

IsMigration-taken : (entry : DirEntry) → IsMigration entry → is_skipped entry ≡ false
unfolding is_skipped
IsMigration-taken entry (file, (before, e)) =
    rw (file, e, has_suffix-append (codes ".sql") before) refl

-- The entries of a directory are those that are taken, in their order, and those that are not.
pub entries-split :
    (entries : List DirEntry)
    → (taken skipped : List DirEntry) × Perm (taken ++ skipped) entries
      × All IsMigration taken
      × All (λ entry. IsMigration entry → ⊥) skipped
      × (migration_names entries ≡ map (λ entry. entry.name) taken)
unfolding migration_names
entries-split [] = ([], [], Perm.refl [], tt, tt, refl)
entries-split (entry ∷ entries) =
    let (taken, skipped, perm, all, none_, names) = entries-split entries in
    elim (Bool-cases (is_skipped entry)) [
      | inl e ↦ (
        taken,
        entry ∷ skipped,
        Perm.trans (perm_middle taken skipped) (Perm.cons entry perm),
        all,
        ((λ is. absurd (cc (IsMigration-taken entry is, e))), none_),
        rw e names,
      )
      | inr e ↦ (
        entry ∷ taken,
        skipped,
        Perm.cons entry perm,
        (taken-IsMigration entry e, all),
        none_,
        rw e (ap (λ rest. entry.name ∷ rest) names),
      )
    ]
