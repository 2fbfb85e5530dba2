-- ===== src/Application/Executor.antt =====
-- internal/application/executor.go: the simulated executor. Its tracing is left out.
pub mod Search
use review_workflow.Base.{
  ℕ, ◌+◌, Bool, true, false, ◌&&◌, ◌||◌, String, ◌<>◌, Option, none, some, List, [], ◌∷◌, codes,
  leb, nat_beq, if◌then◌else◌, map,
}
use review_workflow.Domain.{Request}
use review_workflow.Application.Interfaces.{Executor}

-- `unicode.ToLower`, on the letters whose lower case is an ASCII letter: `A` to `Z`, the dotted
-- capital I and the Kelvin sign. A letter that is left alone here has a lower case above ASCII, so
-- the search for an ASCII text comes out the same.
unfoldable pub to_lower : ℕ → ℕ
to_lower c =
    if leb b'A' c && leb c b'Z'
    then c + 32
    else if nat_beq c 0x130
    then b'i'
    else if nat_beq c 0x212a
    then b'k'
    else c

unfoldable pub has_prefix : List ℕ → List ℕ → Bool
has_prefix [] cs = true
has_prefix (p ∷ ps) [] = false
has_prefix (p ∷ ps) (c ∷ cs) = nat_beq p c && has_prefix ps cs

-- `strings.Contains`
unfoldable pub contains : List ℕ → List ℕ → Bool
unfolding has_prefix
contains part [] = has_prefix part []
contains part (c ∷ cs) = has_prefix part (c ∷ cs) || contains part cs

unfoldable pub simulated_execute : Request → Option String
unfolding contains to_lower
simulated_execute req =
    if contains (codes "fail") (map to_lower (codes req.target_resource))
    then some ("simulated provisioning failure for " <> req.target_resource)
    else none

abbrev pub simulated_executor : Executor
simulated_executor = record { execute = simulated_execute }
