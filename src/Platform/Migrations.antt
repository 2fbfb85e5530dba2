-- ===== src/Platform/Migrations.antt =====
-- internal/platform/sqlutil/migrations.go. The embedded file system and the pool's `Exec` are
-- parameters; tracing is left out.
pub mod Laws
pub mod Order
pub mod Names
use review_workflow.Base.{
  ℕ, Bool, true, false, not, ◌&&◌, ◌||◌, String, List, [], ◌∷◌, codes, ltb, nat_beq, if◌then◌else◌,
}
use review_workflow.Application.Errors.{Result, ok, err}
use review_workflow.Application.Interfaces.{Op}

pub record DirEntry : Type 0 where
  pub name : String
  pub is_dir : Bool

pub record Files : Type 0 where
  pub read_dir : Result (List DirEntry)
  pub read_file : String → Result String

unfoldable pub same_codes : List ℕ → List ℕ → Bool
same_codes [] [] = true
same_codes [] (d ∷ ds) = false
same_codes (c ∷ cs) [] = false
same_codes (c ∷ cs) (d ∷ ds) = nat_beq c d && same_codes cs ds

-- `strings.HasSuffix`
unfoldable pub has_suffix : List ℕ → List ℕ → Bool
unfolding same_codes
has_suffix suffix [] = same_codes suffix []
has_suffix suffix (c ∷ cs) = same_codes suffix (c ∷ cs) || has_suffix suffix cs

unfoldable pub is_skipped : DirEntry → Bool
unfolding has_suffix
is_skipped entry = entry.is_dir || not (has_suffix (codes ".sql") (codes entry.name))

unfoldable pub migration_names : List DirEntry → List String
unfolding is_skipped
migration_names [] = []
migration_names (entry ∷ entries) =
    let names = migration_names entries in if is_skipped entry then names else entry.name ∷ names

-- The order of `sort.Strings`, which is that of the code points.
unfoldable pub is_before : List ℕ → List ℕ → Bool
is_before cs [] = false
is_before [] (d ∷ ds) = true
is_before (c ∷ cs) (d ∷ ds) = ltb c d || nat_beq c d && is_before cs ds

unfoldable pub insert_name : String → List String → List String
unfolding is_before
insert_name name [] = name ∷ []
insert_name name (first ∷ names) =
    let rest = insert_name name names in
    if is_before (codes first) (codes name) then first ∷ rest else name ∷ first ∷ names

unfoldable pub sort_strings : List String → List String
unfolding insert_name
sort_strings [] = []
sort_strings (name ∷ names) = insert_name name (sort_strings names)

module _ {D : Type 0} (files : Files) (exec : String → Op D (Unit {0})) where
  -- The rest of the loop, by the outcome of a statement.
  abbrev pub after_exec : Op D (Unit {0}) → Result (Unit {0}) × D → Result (Unit {0}) × D
  after_exec rest (err e, d) = (err e, d)
  after_exec rest (ok _, d) = rest d

  -- The body of the loop, by the outcome of reading the file, and the rest.
  abbrev pub after_read : Op D (Unit {0}) → Result String → Op D (Unit {0})
  after_read rest (err e) d = (err e, d)
  after_read rest (ok sql) d = after_exec rest (exec sql d)

  unfoldable pub apply_all : List String → Op D (Unit {0})
  apply_all [] d = (ok tt, d)
  apply_all (name ∷ names) d = after_read (apply_all names) (files.read_file name) d

  unfoldable pub apply_listed : Result (List DirEntry) → Op D (Unit {0})
  unfolding apply_all sort_strings migration_names
  apply_listed (err e) d = (err e, d)
  apply_listed (ok entries) d = apply_all (sort_strings (migration_names entries)) d

  unfoldable pub run_migrations : Op D (Unit {0})
  unfolding apply_listed
  run_migrations d = apply_listed files.read_dir d
