-- ===== src/Platform/Migrations/Laws.antt =====
-- What a run of the migrations of internal/platform/sqlutil/migrations.go has executed.
use mathlib.Core.List.{Perm}
use mathlib.Core.Path.{subst}
use review_workflow.Base.{◌≡◌, refl, String, List, [], ◌∷◌, ◌++◌, map, All}
use review_workflow.Application.Errors.{Error, Result, ok, err}
use review_workflow.Application.Interfaces.{Op}
use review_workflow.Platform.Migrations.{
  DirEntry, Files, migration_names, sort_strings, apply_all, apply_listed, after_read, after_exec,
  run_migrations,
}
use review_workflow.Platform.Migrations.Names.{IsMigration, entries-split}
use review_workflow.Platform.Migrations.Order.{
  IsAscending, sort_strings-Perm, sort_strings-IsAscending,
}

module _ {D : Type 0} (files : Files) (exec : String → Op D (Unit {0})) where
  -- A run over files, one after the other, from one database to another: it ends with the first
  -- file that cannot be read and with the first statement that fails, with that error.
  pub data Ran : List String → D → Result (Unit {0}) → D → Type 0 where
    finished : {d : D} → Ran [] d (ok tt) d
    unreadable :
        {name : String} {names : List String} {d : D} (e : Error)
        → files.read_file name ≡ err e
        → Ran (name ∷ names) d (err e) d
    refused :
        {name : String} {names : List String} {d d' : D} (sql : String) (e : Error)
        → files.read_file name ≡ ok sql
        → exec sql d ≡ (err e, d')
        → Ran (name ∷ names) d (err e) d'
    applied :
        {name : String} {names : List String} {d d' d'' : D} {result : Result (Unit {0})}
        (sql : String)
        → files.read_file name ≡ ok sql
        → exec sql d ≡ (ok tt, d')
        → Ran names d' result d''
        → Ran (name ∷ names) d result d''

  after_exec-Ran :
      (name : String) (names : List String) (d : D) (sql : String) (x : Result (Unit {0}) × D)
      → ((d' : D)
          → Ran names d' (apply_all files exec names d').0 (apply_all files exec names d').1)
      → files.read_file name ≡ ok sql
      → exec sql d ≡ x
      → let (result, d') = after_exec files exec (apply_all files exec names) x in
        Ran (name ∷ names) d result d'
  after_exec-Ran name names d sql (err e, d') later read e' = refused sql e read e'
  after_exec-Ran name names d sql (ok _, d') later read e' = applied sql read e' (later d')

  after_read-Ran :
      (name : String) (names : List String) (d : D) (text : Result String)
      → ((d' : D)
          → Ran names d' (apply_all files exec names d').0 (apply_all files exec names d').1)
      → files.read_file name ≡ text
      → let (result, d') = after_read files exec (apply_all files exec names) text d in
        Ran (name ∷ names) d result d'
  after_read-Ran name names d (err e) later read = unreadable e read
  after_read-Ran name names d (ok sql) later read =
      after_exec-Ran name names d sql (exec sql d) later read refl

  apply_all-Ran :
      (names : List String) (d : D)
      → let (result, d') = apply_all files exec names d in Ran names d result d'
  unfolding apply_all
  apply_all-Ran [] d = finished
  apply_all-Ran (name ∷ names) d =
      after_read-Ran name names d (files.read_file name) (apply_all-Ran names) refl

  -- What a run comes to, by the listing of the directory.
  abbrev pub Outcome : Result (List DirEntry) → D → Result (Unit {0}) × D → Type 0
  Outcome (err e) d (result, d') = (result ≡ err e) × (d' ≡ d)
  Outcome (ok entries) d (result, d') =
      (taken skipped : List DirEntry) × (names : List String) × Perm (taken ++ skipped) entries
      × All IsMigration taken
      × All (λ entry. IsMigration entry → ⊥) skipped
      × Perm names (map (λ entry. entry.name) taken)
      × IsAscending names
      × Ran names d result d'

  apply_listed-Outcome :
      (listing : Result (List DirEntry)) (d : D)
      → Outcome listing d (apply_listed files exec listing d)
  unfolding apply_listed
  apply_listed-Outcome (err e) d = (refl, refl)
  apply_listed-Outcome (ok entries) d =
      let (taken, skipped, perm, all, none_, same) = entries-split entries in
      let names = sort_strings (migration_names entries) in
      (
        taken,
        skipped,
        names,
        perm,
        all,
        none_,
        subst (Perm names) same (sort_strings-Perm (migration_names entries)),
        sort_strings-IsAscending (migration_names entries),
        apply_all-Ran names d,
      )

  -- A run of the migrations fails with the error of the listing and leaves the database, or it goes
  -- through the names of exactly those entries of the directory that are no directories and whose
  -- names end in `.sql`, each as often as it is listed, in ascending order of the names: it
  -- executes each file that is read, and ends with the first file that cannot be read or whose
  -- statement fails, with that error.
  pub run_migrations-Outcome : (d : D) → Outcome files.read_dir d (run_migrations files exec d)
  unfolding run_migrations
  run_migrations-Outcome = apply_listed-Outcome files.read_dir

  module _ (Done : D → String → Type 0)
      (settles : (sql : String) (d d' : D) → exec sql d ≡ (ok tt, d') → Done d' sql)
      (keeps : (sql sql' : String) (d d' : D)
        → Done d sql
        → exec sql' d ≡ (ok tt, d')
        → Done d' sql)
      (idle : (sql : String) (d : D) → Done d sql → exec sql d ≡ (ok tt, d)) where
    Ran-keeps :
        (sql : String) (names : List String) (d d' : D) (result : Result (Unit {0}))
        → Done d sql
        → Ran names d result d'
        → result ≡ ok tt
        → Done d' sql
    Ran-keeps sql names d d' result h finished e = h
    Ran-keeps sql names d d' result h (unreadable x read) e = cc
    Ran-keeps sql names d d' result h (refused s x read failed) e = cc
    Ran-keeps sql (name ∷ names) d d' result h (applied {d' = m} s read done later) e =
        Ran-keeps sql names m d' result (keeps sql s d m h done) later e

    abbrev AllDone : List String → D → Type 0
    AllDone names d =
        All (λ name. (sql : String) × (files.read_file name ≡ ok sql) × Done d sql) names

    Ran-AllDone :
        (names : List String) (d d' : D) (result : Result (Unit {0}))
        → Ran names d result d'
        → result ≡ ok tt
        → AllDone names d'
    Ran-AllDone names d d' result finished e = tt
    Ran-AllDone names d d' result (unreadable x read) e = cc
    Ran-AllDone names d d' result (refused s x read failed) e = cc
    Ran-AllDone (name ∷ names) d d' result (applied {d' = m} s read done later) e = (
      (s, read, Ran-keeps s names m d' result (settles s d m done) later e),
      Ran-AllDone names m d' result later e,
    )

    AllDone-idle :
        (names : List String) (d : D) → AllDone names d → apply_all files exec names d ≡ (ok tt, d)
    unfolding apply_all
    AllDone-idle [] d h = refl
    AllDone-idle (name ∷ names) d ((sql, read, done), rest) =
        rw (read, idle sql d done) (AllDone-idle names d rest)

    apply_listed-again :
        (listing : Result (List DirEntry)) (d : D)
        → (apply_listed files exec listing d).0 ≡ ok tt
        → let d' = (apply_listed files exec listing d).1 in
          apply_listed files exec listing d' ≡ (ok tt, d')
    unfolding apply_listed
    apply_listed-again (err e) d succeeded = cc
    apply_listed-again (ok entries) d succeeded =
        let names = sort_strings (migration_names entries) in
        AllDone-idle names _ (Ran-AllDone names d _ _ (apply_all-Ran names d) succeeded)

    -- A server that is started again finds its migrations done: if a statement that has been
    -- executed stays in effect and does nothing a second time, as `CREATE ... IF NOT EXISTS`, then
    -- a run of the migrations on the database that a successful run has left succeeds and leaves
    -- the database.
    pub run_migrations-again :
        (d : D)
        → (run_migrations files exec d).0 ≡ ok tt
        → let d' = (run_migrations files exec d).1 in run_migrations files exec d' ≡ (ok tt, d')
    unfolding run_migrations
    run_migrations-again = apply_listed-again files.read_dir
