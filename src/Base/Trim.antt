-- ===== src/Base/Trim.antt =====
-- What `strings.TrimSpace` leaves at the ends of a text.
use Prim.Native.Char.{Char, code}
use Prim.Native.String.{String}
use mathlib.Core.Path.{◌≡◌, refl, ap, ◌∙◌}
use mathlib.Core.Logic.{inl, inr}
use mathlib.Core.Bool.{false, ◌&&◌}
use native.Mathlib.Omega.{arith}
use review_workflow.Base.Tests.{Bool-cases, if◌then◌else◌}
use review_workflow.Base.Text.{is_empty, is_space, trim_left, trim_right, trim_space}

-- The first character of a text is no space; so is the last.
abbrev pub StartsClean : String → Type 0
StartsClean String.[] = Unit
StartsClean (String.◌∷◌ c s) = is_space (code c) ≡ false

abbrev pub EndsClean : String → Type 0
EndsClean String.[] = Unit
EndsClean (String.◌∷◌ c String.[]) = is_space (code c) ≡ false
EndsClean (String.◌∷◌ c (String.◌∷◌ d s)) = EndsClean (String.◌∷◌ d s)

trim_left-StartsClean : (s : String) → StartsClean (trim_left s)
unfolding trim_left
trim_left-StartsClean String.[] = tt
trim_left-StartsClean (String.◌∷◌ c s) = elim (Bool-cases (is_space (code c))) [
  | inl e ↦ rw e (trim_left-StartsClean s)
  | inr e ↦ rw e e
]

trim_left-clean : (s : String) → StartsClean s → trim_left s ≡ s
unfolding trim_left
trim_left-clean String.[] h = refl
trim_left-clean (String.◌∷◌ c s) h = rw h refl

-- A text that trims to nothing does so behind any space, and only there.
trim_right-EndsClean : (s : String) → EndsClean (trim_right s)
unfolding trim_right
trim_right-EndsClean String.[] = tt
trim_right-EndsClean (String.◌∷◌ c s) = ends c (trim_right s) (trim_right-EndsClean s)
  where
    ends :
        (d : Char) (rest : String)
        → EndsClean rest
        → EndsClean (if is_space (code d) && is_empty rest then String.[] else String.◌∷◌ d rest)
    ends d String.[] h = elim (Bool-cases (is_space (code d))) [ inl e ↦ rw e tt | inr e ↦ rw e e ]
    ends d (String.◌∷◌ x rest) h = elim (Bool-cases (is_space (code d))) [
      | inl e ↦ rw e h
      | inr e ↦ rw e h
    ]

trim_right-clean : (s : String) → EndsClean s → trim_right s ≡ s
unfolding trim_right
trim_right-clean String.[] h = refl
trim_right-clean (String.◌∷◌ c String.[]) h = rw h refl
trim_right-clean (String.◌∷◌ c (String.◌∷◌ d s)) h =
    kept c d s (trim_right (String.◌∷◌ d s)) (trim_right-clean (String.◌∷◌ d s) h)
  where
    kept :
        (x y : Char) (t rest : String)
        → rest ≡ String.◌∷◌ y t
        → (if is_space (code x) && is_empty rest then String.[] else String.◌∷◌ x rest)
          ≡ String.◌∷◌ x (String.◌∷◌ y t)
    kept x y t rest e = ground (arith)

trim_right-StartsClean : (s : String) → StartsClean s → StartsClean (trim_right s)
unfolding trim_right
trim_right-StartsClean String.[] h = tt
trim_right-StartsClean (String.◌∷◌ c s) h = rw h h

-- A trimmed text begins and ends with no space.
pub trim_space-clean : (s : String) → StartsClean (trim_space s) × EndsClean (trim_space s)
unfolding trim_space
trim_space-clean s = (
  trim_right-StartsClean (trim_left s) (trim_left-StartsClean s),
  trim_right-EndsClean (trim_left s),
)

-- Trimming a second time changes nothing.
pub trim_space_idem : (s : String) → trim_space (trim_space s) ≡ trim_space s
unfolding trim_space
trim_space_idem s =
    ap trim_right (trim_left-clean (trim_space s) (trim_space-clean s).0)
    ∙ trim_right-clean (trim_space s) (trim_space-clean s).1
