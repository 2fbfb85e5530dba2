-- ===== src/Base/Int.antt =====
-- Signed integers over the native numbers, and Go's 64-bit `int` and `time.Duration` among them.
use Prim.Native.Nat.{ℕ, suc, ◌+◌, ◌-◌, ◌*◌, ◌%◌, ◌≤◌, ◌<◌}
use mathlib.Core.Path.{◌≡◌}
use mathlib.Core.Logic.{◌≢◌, ◌↔◌}
use mathlib.Core.Bool.{Bool, true}
use native.Mathlib.Omega.{arith}
use review_workflow.Base.Tests.{ltb, leb, nat_beq, if◌then◌else◌}

-- `negsuc n` is -(n + 1).
pub data ℤ : Type 0 where
  pos : ℕ → ℤ
  negsuc : ℕ → ℤ

abbrev pub pos_part : ℤ → ℕ
pos_part (pos n) = n
pos_part (negsuc n) = 0

abbrev pub neg_part : ℤ → ℕ
neg_part (pos n) = 0
neg_part (negsuc n) = suc n

-- a - b, as an integer.
abbrev pub sub_ℕ : ℕ → ℕ → ℤ
sub_ℕ a b = if leb b a then pos (a - b) else negsuc (b - a - 1)

infixl 65 ◌+ℤ◌ ◌-ℤ◌
infixl 70 ◌*ℤ◌
infix 50 ◌≤ℤ◌ ◌<ℤ◌
unfoldable pub ◌+ℤ◌ : ℤ → ℤ → ℤ
a +ℤ b = sub_ℕ (pos_part a + pos_part b) (neg_part a + neg_part b)

unfoldable pub ◌-ℤ◌ : ℤ → ℤ → ℤ
a -ℤ b = sub_ℕ (pos_part a + neg_part b) (neg_part a + pos_part b)

unfoldable pub ◌*ℤ◌ : ℤ → ℤ → ℤ
a *ℤ b =
    sub_ℕ (pos_part a * pos_part b + neg_part a * neg_part b)
      (pos_part a * neg_part b + neg_part a * pos_part b)

abbrev pub ◌≤ℤ◌ : ℤ → ℤ → Type 0
a ≤ℤ b = pos_part a + neg_part b ≤ pos_part b + neg_part a

abbrev pub ◌<ℤ◌ : ℤ → ℤ → Type 0
a <ℤ b = pos_part a + neg_part b < pos_part b + neg_part a

abbrev pub ltb_ℤ : ℤ → ℤ → Bool
ltb_ℤ a b = ltb (pos_part a + neg_part b) (pos_part b + neg_part a)

abbrev pub leb_ℤ : ℤ → ℤ → Bool
leb_ℤ a b = leb (pos_part a + neg_part b) (pos_part b + neg_part a)

abbrev pub eq_ℤ : ℤ → ℤ → Bool
eq_ℤ a b = nat_beq (pos_part a + neg_part b) (pos_part b + neg_part a)

pub eq_ℤ_iff : (a b : ℤ) → (eq_ℤ a b ≡ true) ↔ (a ≡ b)
eq_ℤ_iff a b = ground arith

-- The 64-bit two's complement pattern of an integer, and the integer that a pattern stands for.
abbrev pub word_bits : ℤ → ℕ
word_bits (pos n) = n % 0x10000000000000000
word_bits (negsuc n) = 0xffffffffffffffff - n % 0x10000000000000000

abbrev pub signed : ℕ → ℤ
signed m = if ltb m 0x8000000000000000 then pos m else negsuc (0xffffffffffffffff - m)

-- What a 64-bit signed operation leaves of its exact result.
unfoldable pub wrap64 : ℤ → ℤ
wrap64 z = signed (word_bits z)

-- `n++` on an `int`
unfoldable pub incr : ℤ → ℤ
unfolding wrap64 ◌+ℤ◌
incr n = wrap64 (n +ℤ pos 1)

-- `a * b` on `time.Duration`
unfoldable pub mul64 : ℤ → ℤ → ℤ
unfolding wrap64 ◌*ℤ◌
mul64 a b = wrap64 (a *ℤ b)

-- A counter that wraps still differs from its last value.
pub incr-ne : (n : ℤ) → incr n ≢ n
unfolding incr
incr-ne n h = ground arith

-- Below the largest `int` a counter goes up by one.
pub incr_exact : (n : ℕ) → n < 0x7fffffffffffffff → incr (pos n) ≡ pos (n + 1)
unfolding incr
incr_exact n h = ground arith

-- Counting in 64 bits is counting and then cutting off.
pub incr-wrap64 : (n : ℕ) → incr (wrap64 (pos n)) ≡ wrap64 (pos (n + 1))
unfolding incr
incr-wrap64 n = ground arith

-- A counter as a pattern goes up by one, modulo the size of the word.
pub word_bits-incr : (n : ℤ) → word_bits (incr n) ≡ (word_bits n + 1) % 0x10000000000000000
unfolding incr
word_bits-incr n = ground arith

pub word_bits_bound : (n : ℤ) → word_bits n < 0x10000000000000000
word_bits_bound n = ground arith
