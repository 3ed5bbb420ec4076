-- ===== src/Prelude/Texts.antt =====
-- Texts as keys: order, membership, sets of names as lists, decimal numerals.
use Prim.Native.Nat.{ℕ, zero, suc, ◌+◌, ◌/◌, ◌%◌}
use Prim.Native.String.{String, ◌++◌, compare, slice}
use mathlib.Core.Path.{◌≡◌}
use mathlib.Core.Bool.{Bool, true, false, not, ◌&&◌, ◌||◌}
use mathlib.Core.List.{List, [], ◌∷◌}
use native.Mathlib.Omega.{arith}
use text.Mathlib.Text.{◌==◌, is_le, is_lt}
use text.Mathlib.TextPositions.{eq_refl}
use text.Mathlib.TextEquality.{eq_iff}
use package.karmada_with_pvmigration.Prelude.Lists.{All}
use package.karmada_with_pvmigration.Prelude.Tests.{if◌then◌else◌, ltb}

-- Go's `+` on strings.
infixl 65 ◌<>◌
abbrev pub ◌<>◌ : String → String → String
s <> t = s ++ t

-- Go's `<=` and `<` on strings: bytes in order.
abbrev pub text_leb : String → String → Bool
text_leb s t = is_le (compare s t)

abbrev pub text_ltb : String → String → Bool
text_ltb s t = is_lt (compare s t)

-- A `map[string]bool` whose values are all true: the names that were put in.
abbrev pub contains : List String → String → Bool
contains [] a = false
contains (x ∷ xs) a = x == a || contains xs a

unfoldable pub put : String → List String → List String
put a xs = if contains xs a then xs else a ∷ xs

-- `delete(m, a)`
unfoldable pub without : String → List String → List String
without a [] = []
without a (x ∷ xs) = let rest = without a xs in if x == a then rest else x ∷ rest

pub contains-put :
    (a b : String) (xs : List String) → contains (put a xs) b ≡ (a == b || contains xs b)
unfolding put
contains-put a b xs = ground (arith, eq_iff a b)

pub contains-without :
    (a b : String) (xs : List String) → contains (without a xs) b ≡ (not (a == b) && contains xs b)
unfolding without
contains-without a b [] = ground arith
contains-without a b (x ∷ xs) =
    ground (arith, eq_iff a b, eq_iff x a, eq_iff x b, contains-without a b xs)

-- The decimal numeral, as `%d` prints it. The fuel is one more than the number.
digits : ℕ → ℕ → String
digits zero n = ""
digits (suc f) n =
    let d = slice "0123456789" (n % 10) (n % 10 + 1) in
    let rest = digits f (n / 10) in if ltb n 10 then d else rest ++ d

unfoldable pub decimal : ℕ → String
unfolding digits
decimal n = digits (suc n) n

-- A property of every name that the list contains is one of every element.
pub All-of_contains {ℓ} :
    (P : String → Type ℓ) (xs : List String)
    → ((n : String) → contains xs n ≡ true → P n)
    → All P xs
All-of_contains P [] h = tt
All-of_contains P (x ∷ xs) h =
    (h x (ground (arith, eq_refl x)), All-of_contains P xs (λ n m. h n (ground arith)))
