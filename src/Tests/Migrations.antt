-- ===== src/Tests/Migrations.antt =====
-- The theorems on internal/platform/sqlutil/migrations.go at a directory of four entries.
use mathlib.Core.Path.{subst}
use review_workflow.Base.{
  Bool, true, false, ◌||◌, ◌≡◌, refl, ap, Bool-cases, inl, inr, String, ◌==◌, eq_iff, List, [], ◌∷◌,
  if◌then◌else◌,
}
use review_workflow.Application.Errors.{Result, ok}
use review_workflow.Platform.Migrations.{
  Files, run_migrations, apply_listed, apply_all, sort_strings, insert_name, is_before,
  migration_names, is_skipped, has_suffix, same_codes,
}
use review_workflow.Platform.Migrations.Laws.{Outcome, run_migrations-Outcome, run_migrations-again}

abbrev files : Files
files = record {
  read_dir = ok (
      record { name = "000002_roles.sql"; is_dir = false }
      ∷ record { name = "migrations.go"; is_dir = false }
      ∷ record { name = "000001_init.sql"; is_dir = false }
      ∷ record { name = "old.sql"; is_dir = true }
      ∷ []);
  read_file = λ name. ok name;
}

abbrev created : String → List String → Bool
created sql [] = false
created sql (x ∷ xs) = x == sql || created sql xs

-- `CREATE TABLE IF NOT EXISTS`
abbrev create : String → List String → Result (Unit {0}) × List String
create sql d = (ok tt, if created sql d then d else sql ∷ d)

abbrev Done : List String → String → Type 0
Done d sql = created sql d ≡ true

after_create : (sql : String) (d : List String) → Done (if created sql d then d else sql ∷ d) sql
after_create sql d = elim (Bool-cases (created sql d)) [
  | inl e ↦ rw e e
  | inr e ↦ rw (e, (eq_iff sql sql).1 refl) refl
]

create-Done : (sql : String) (d d' : List String) → create sql d ≡ (ok tt, d') → Done d' sql
create-Done sql d d' e = subst (λ x. Done x sql) (ap (λ x. x.1) e) (after_create sql d)

kept :
    (sql sql' : String) (d : List String)
    → Done d sql
    → Done (if created sql' d then d else sql' ∷ d) sql
kept sql sql' d h = elim (Bool-cases (created sql' d)) [
  | inl e ↦ rw e h
  | inr e ↦ rw e (elim (Bool-cases (sql' == sql)) [ inl x ↦ rw x refl | inr x ↦ rw x h ])
]

create_keeps_Done :
    (sql sql' : String) (d d' : List String)
    → Done d sql
    → create sql' d ≡ (ok tt, d')
    → Done d' sql
create_keeps_Done sql sql' d d' h e = subst (λ x. Done x sql) (ap (λ x. x.1) e) (kept sql sql' d h)

create_idle : (sql : String) (d : List String) → Done d sql → create sql d ≡ (ok tt, d)
create_idle sql d h = rw h refl

run_migrations-Outcome_example :
    Outcome files create files.read_dir [] (run_migrations files create [])
run_migrations-Outcome_example = run_migrations-Outcome files create []

abbrev migrated : List String
migrated = "000002_roles.sql" ∷ "000001_init.sql" ∷ []

in_order : run_migrations files create [] ≡ (ok tt, migrated)
unfolding run_migrations apply_listed apply_all sort_strings insert_name is_before migration_names
    is_skipped has_suffix same_codes
in_order = refl

run_migrations-again_example :
    let d' = (run_migrations files create []).1 in run_migrations files create d' ≡ (ok tt, d')
run_migrations-again_example =
    run_migrations-again files create Done create-Done create_keeps_Done create_idle []
      (ap (λ x. x.0) in_order)
