-- ===== src/Prelude/Int.antt =====
-- Signed integers over the native numbers, and Go's int32 wrap-around.
use Prim.Native.Nat.{ℕ, zero, suc, ◌+◌, ◌-◌, ◌%◌, ◌^◌, ◌≤◌}
use Prim.Native.String.{String}
use mathlib.Core.Bool.{Bool, ◌&&◌}
use mathlib.Core.List.{List, [], ◌∷◌}
use package.karmada_with_pvmigration.Prelude.Tests.{if◌then◌else◌, leb, eqb}
use package.karmada_with_pvmigration.Prelude.Texts.{decimal, ◌<>◌}

-- `negsuc n` is -(n + 1).
pub data ℤ : Type 0 where
  pos : ℕ → ℤ
  negsuc : ℕ → ℤ

abbrev pub pos_part : ℤ → ℕ
pos_part (pos n) = n
pos_part (negsuc n) = 0

abbrev pub neg_part : ℤ → ℕ
neg_part (pos n) = 0
neg_part (negsuc n) = suc n

abbrev pub same_ℤ : ℤ → ℤ → Bool
same_ℤ a b = eqb (pos_part a) (pos_part b) && eqb (neg_part a) (neg_part b)

-- a - b, as an integer.
abbrev pub sub_ℕ : ℕ → ℕ → ℤ
sub_ℕ a b = if leb b a then pos (a - b) else negsuc (b - a - 1)

infixl 65 ◌+ℤ◌
infix 50 ◌≤ℤ◌
unfoldable pub ◌+ℤ◌ : ℤ → ℤ → ℤ
a +ℤ b = sub_ℕ (pos_part a + pos_part b) (neg_part a + neg_part b)

abbrev pub ◌≤ℤ◌ : ℤ → ℤ → Type 0
a ≤ℤ b = pos_part a + neg_part b ≤ pos_part b + neg_part a

abbrev pub leb_ℤ : ℤ → ℤ → Bool
leb_ℤ a b = leb (pos_part a + neg_part b) (pos_part b + neg_part a)

-- The int32 value of a sum: reduced modulo 2^32 into [-2^31, 2^31).
unfoldable pub wrap32 : ℤ → ℤ
wrap32 z = sub_ℕ ((pos_part z + 2 ^ 31 + (2 ^ 32 - neg_part z % 2 ^ 32)) % 2 ^ 32) (2 ^ 31)

-- How often the body of `for i := start; i < bound; i++` runs.
unfoldable pub rounds : ℤ → ℤ → ℕ
rounds start bound = (pos_part bound + neg_part start) - (pos_part start + neg_part bound)

-- The values that a counter takes in so many rounds.
unfoldable pub count_up : ℤ → ℕ → List ℤ
unfolding ◌+ℤ◌
count_up start zero = []
count_up start (suc n) = start ∷ count_up (start +ℤ pos 1) n

-- `%d`
unfoldable pub print_ℤ : ℤ → String
print_ℤ (pos n) = decimal n
print_ℤ (negsuc n) = "-" <> decimal (suc n)
