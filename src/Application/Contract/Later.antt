-- ===== src/Application/Contract/Later.antt =====
-- What transitions have made of a request, as far as its version tells: the version goes up by one
-- each time, and wraps around at 2 ^ 64.
use review_workflow.Base.{ℕ, suc, ◌+◌, ◌%◌, ◌<◌, ◌≡◌, refl, ap, ◌∙◌, arith}
use review_workflow.Base.Int.{incr, word_bits, word_bits-incr, word_bits_bound}
use review_workflow.Domain.{Request}

-- `r'` is what `n` transitions have made of `r`.
pub record IsLater (r r' : Request) (n : ℕ) : Type 0 where
  pub bits : word_bits r'.version ≡ (word_bits r.version + n) % 0x10000000000000000
  pub untouched : n ≡ 0 → r' ≡ r

pub IsLater-refl : (r : Request) → IsLater r r 0
IsLater-refl r = record { bits = omega (arith, word_bits_bound r.version); untouched = λ _. refl }

pub IsLater-next :
    (r q q' : Request) (n : ℕ) → IsLater r q n → q'.version ≡ incr q.version → IsLater r q' (suc n)
IsLater-next r q q' n later bumped = record {
  bits = omega (arith, later.bits, ap word_bits bumped ∙ word_bits-incr q.version);
  untouched = λ e. absurd (omega arith);
}

-- Fewer than 2 ^ 64 transitions that leave the version are none.
pub IsLater-same :
    (r q : Request) (n : ℕ)
    → IsLater r q n
    → n < 0x10000000000000000
    → q.version ≡ r.version
    → q ≡ r
IsLater-same r q n later few same =
    later.untouched (omega (arith, later.bits, ap word_bits same, word_bits_bound r.version))
