-- ===== src/Base/Int.antt =====
-- The C type `int` (32 bits, two's complement) over signed integers, with its wrap-around.
use lhq_linux_c.Base.Tests.{◌==◌}
use Prim.Native.Nat.{ℕ, suc, ◌+◌, ◌-◌, ◌%◌, ◌^◌, ◌≤◌, ◌<◌}
use mathlib.Core.Path.{◌≡◌, refl}
use mathlib.Core.Bool.{Bool}
use native.Mathlib.Omega.{arith}
use lhq_linux_c.Base.Tests.{ltb, leb, if◌then◌else◌}

-- `negsuc n` is -(n + 1).
pub data ℤ : Type 0 where
  pos : ℕ → ℤ
  negsuc : ℕ → ℤ

abbrev pub pos_part : ℤ → ℕ
pos_part (pos n) = n
pos_part (negsuc n) = 0

abbrev pub neg_part : ℤ → ℕ
neg_part (pos n) = 0
neg_part (negsuc n) = suc n

abbrev pub sub_ℕ : ℕ → ℕ → ℤ
sub_ℕ a b = if leb b a then pos (a - b) else negsuc (b - a - 1)

infix 50 ◌≤ℤ◌ ◌<ℤ◌
abbrev pub ◌≤ℤ◌ : ℤ → ℤ → Type 0
a ≤ℤ b = pos_part a + neg_part b ≤ pos_part b + neg_part a

abbrev pub ◌<ℤ◌ : ℤ → ℤ → Type 0
a <ℤ b = pos_part a + neg_part b < pos_part b + neg_part a

abbrev pub ltb_ℤ : ℤ → ℤ → Bool
ltb_ℤ a b = ltb (pos_part a + neg_part b) (pos_part b + neg_part a)

abbrev pub eqb_ℤ : ℤ → ℤ → Bool
eqb_ℤ a b = (pos_part a + neg_part b) == (pos_part b + neg_part a)

abbrev pub leb_ℤ : ℤ → ℤ → Bool
leb_ℤ a b = leb (pos_part a + neg_part b) (pos_part b + neg_part a)

-- The value that 32 bits keep: of a nonnegative number, and of -(n + 1).
wrap_pos : ℕ → ℤ
wrap_pos r = if ltb r (2 ^ 31) then pos r else negsuc (2 ^ 32 - 1 - r)

wrap_neg : ℕ → ℤ
wrap_neg r = if ltb r (2 ^ 31) then negsuc r else pos (2 ^ 32 - 1 - r)

pub wrap_int : ℤ → ℤ
unfolding wrap_pos wrap_neg
wrap_int (pos n) = wrap_pos (n % 2 ^ 32)
wrap_int (negsuc n) = wrap_neg (n % 2 ^ 32)

infixl 65 ◌+ℤ◌ ◌-ℤ◌
-- `int` addition and subtraction.
unfoldable pub ◌+ℤ◌ : ℤ → ℤ → ℤ
unfolding wrap_int
a +ℤ b = wrap_int (sub_ℕ (pos_part a + pos_part b) (neg_part a + neg_part b))

unfoldable pub ◌-ℤ◌ : ℤ → ℤ → ℤ
unfolding wrap_int
a -ℤ b = wrap_int (sub_ℕ (pos_part a + neg_part b) (neg_part a + pos_part b))

-- In the range of `int`.
pub record IsInt (a : ℤ) : Type 0 where
  pub above : neg_part a ≤ 2 ^ 31
  pub below : pos_part a < 2 ^ 31

wrap_int_id : (a : ℤ) → neg_part a ≤ 2 ^ 31 → pos_part a < 2 ^ 31 → wrap_int a ≡ a
unfolding wrap_int wrap_pos wrap_neg
wrap_int_id (pos n) h k = ground arith
wrap_int_id (negsuc n) h k = ground arith

wrap-sub_ℕ :
    (a b : ℕ)
    → a < 2 ^ 31 + b
    → b ≤ 2 ^ 31 + a
    → pos_part (wrap_int (sub_ℕ a b)) + b ≡ neg_part (wrap_int (sub_ℕ a b)) + a
wrap-sub_ℕ a b h k = rw (wrap_int_id (sub_ℕ a b) (ground arith) (ground arith)) (ground arith)

-- Where the exact result is in the range of `int`, it is the result.
pub +ℤ_parts :
    (a b : ℤ)
    → pos_part a + pos_part b < 2 ^ 31 + neg_part a + neg_part b
    → neg_part a + neg_part b ≤ 2 ^ 31 + pos_part a + pos_part b
    → pos_part (a +ℤ b) + neg_part a + neg_part b ≡ neg_part (a +ℤ b) + pos_part a + pos_part b
unfolding ◌+ℤ◌
+ℤ_parts a b h k = omega (
  arith,
  wrap-sub_ℕ (pos_part a + pos_part b) (neg_part a + neg_part b) (omega arith) (omega arith),
)

pub -ℤ_parts :
    (a b : ℤ)
    → pos_part a + neg_part b < 2 ^ 31 + neg_part a + pos_part b
    → neg_part a + pos_part b ≤ 2 ^ 31 + pos_part a + neg_part b
    → pos_part (a -ℤ b) + neg_part a + pos_part b ≡ neg_part (a -ℤ b) + pos_part a + neg_part b
unfolding ◌-ℤ◌
-ℤ_parts a b h k = omega (
  arith,
  wrap-sub_ℕ (pos_part a + neg_part b) (neg_part a + pos_part b) (omega arith) (omega arith),
)

wrap_pos_range : (r : ℕ) → r < 2 ^ 32 → IsInt (wrap_pos r)
unfolding wrap_pos
wrap_pos_range r h = ground arith

wrap_neg_range : (r : ℕ) → r < 2 ^ 32 → IsInt (wrap_neg r)
unfolding wrap_neg
wrap_neg_range r h = ground arith

wrap_int-IsInt : (a : ℤ) → IsInt (wrap_int a)
unfolding wrap_int
wrap_int-IsInt (pos n) = wrap_pos_range (n % 2 ^ 32) (omega arith)
wrap_int-IsInt (negsuc n) = wrap_neg_range (n % 2 ^ 32) (omega arith)

pub +ℤ-IsInt : (a b : ℤ) → IsInt (a +ℤ b)
unfolding ◌+ℤ◌
+ℤ-IsInt a b = wrap_int-IsInt (sub_ℕ (pos_part a + pos_part b) (neg_part a + neg_part b))

pub -ℤ-IsInt : (a b : ℤ) → IsInt (a -ℤ b)
unfolding ◌-ℤ◌
-ℤ-IsInt a b = wrap_int-IsInt (sub_ℕ (pos_part a + neg_part b) (neg_part a + pos_part b))

pub eq_of_parts : (a b : ℤ) → pos_part a + neg_part b ≡ pos_part b + neg_part a → a ≡ b
eq_of_parts a b h = ground arith

-- The difference and the sum of numbers that are at least 0, inside the range of int.
pub -ℤ-pos : (t n : ℕ) → n ≤ t → t < 2 ^ 31 → pos t -ℤ pos n ≡ pos (t - n)
-ℤ-pos t n h k = eq_of_parts _ _ (omega (arith, -ℤ_parts (pos t) (pos n)))

pub +ℤ-pos : (t n : ℕ) → t + n < 2 ^ 31 → pos t +ℤ pos n ≡ pos (t + n)
+ℤ-pos t n h = eq_of_parts _ _ (omega (arith, +ℤ_parts (pos t) (pos n)))

pub ruleset int_laws = (arith, +ℤ_parts, -ℤ_parts, eq_of_parts)

wrap_over : pos (2 ^ 31 - 1) +ℤ pos 1 ≡ negsuc (2 ^ 31 - 1)
unfolding ◌+ℤ◌
wrap_over = refl
