-- ===== src/VolumeClaims/Sorting.antt =====
-- `sort.Strings`, as an insertion sort of texts.
use Prim.Native.Nat.{ℕ, Ordering, compare as compare_ℕ}
use Prim.Native.Char.{code}
use Prim.Native.String.{compare, then as join}
use Prim.Native.String.compare
use karmada_with_pvmigration.Prelude.{
  String, ◌≡◌, refl, sym, ap, ◌∙◌, true, false, ◌||◌, List, [], ◌∷◌, arith, ◌==◌, eq_iff, contains,
  text_leb, if◌then◌else◌,
}

insert_text : String → List String → List String
insert_text a [] = a ∷ []
insert_text a (x ∷ xs) = if text_leb a x then a ∷ x ∷ xs else x ∷ insert_text a xs

unfoldable pub sort : List String → List String
unfolding insert_text
sort [] = []
sort (x ∷ xs) = insert_text x (sort xs)

-- Each text stands before the next in byte order.
abbrev pub IsSorted : List String → Type 0
IsSorted [] = Unit
IsSorted (x ∷ []) = Unit
IsSorted (x ∷ y ∷ xs) = (text_leb x y ≡ true) × IsSorted (y ∷ xs)

-- No text stands twice.
abbrev pub IsDistinct : List String → Type 0
IsDistinct [] = Unit
IsDistinct (x ∷ xs) = (contains xs x ≡ false) × IsDistinct xs

unfoldable pub swap : Ordering → Ordering
swap Ordering.lt = Ordering.gt
swap Ordering.eq = Ordering.eq
swap Ordering.gt = Ordering.lt

swap-compare_ℕ : (m n : ℕ) → compare_ℕ m n ≡ swap (compare_ℕ n m)
unfolding swap
swap-compare_ℕ m n = ground arith

then-swap : (o r : Ordering) → swap (join o r) ≡ join (swap o) (swap r)
unfolding swap
then-swap Ordering.lt r = refl
then-swap Ordering.eq r = refl
then-swap Ordering.gt r = refl

pub swap-compare : (s t : String) → compare s t ≡ swap (compare t s)
unfolding swap
swap-compare String.[] String.[] = rw (compare.nil-nil)
swap-compare String.[] (String.◌∷◌ d t) = rw (compare.nil-cons, compare.cons-nil)
swap-compare (String.◌∷◌ c s) String.[] = rw (compare.nil-cons, compare.cons-nil)
swap-compare (String.◌∷◌ c s) (String.◌∷◌ d t) =
    compare.cons-cons c d s t
    ∙ rw (swap-compare_ℕ (code c) (code d), swap-compare s t)
        (sym (then-swap (compare_ℕ (code d) (code c)) (compare t s)))
    ∙ ap swap (sym (compare.cons-cons d c t s))

text_leb_total : (s t : String) → text_leb s t ≡ false → text_leb t s ≡ true
unfolding swap
text_leb_total s t h = ground (arith, swap-compare t s)

insert_text-IsSorted : (a : String) (xs : List String) → IsSorted xs → IsSorted (insert_text a xs)
unfolding insert_text
insert_text-IsSorted a [] h = tt
insert_text-IsSorted a (x ∷ []) h = ground (arith, text_leb_total a x)
insert_text-IsSorted a (x ∷ y ∷ xs) h =
    ground (arith, text_leb_total a x, insert_text-IsSorted a (y ∷ xs))

pub sort-IsSorted : (xs : List String) → IsSorted (sort xs)
unfolding sort
sort-IsSorted [] = tt
sort-IsSorted (x ∷ xs) = insert_text-IsSorted x (sort xs) (sort-IsSorted xs)

contains-insert_text :
    (a b : String) (xs : List String) → contains (insert_text a xs) b ≡ (a == b || contains xs b)
unfolding insert_text
contains-insert_text a b [] = refl
contains-insert_text a b (x ∷ xs) = ground (arith, contains-insert_text a b xs)

pub contains-sort : (xs : List String) (b : String) → contains (sort xs) b ≡ contains xs b
unfolding sort
contains-sort [] b = refl
contains-sort (x ∷ xs) b = contains-insert_text x b (sort xs) ∙ rw (contains-sort xs b)

insert_text-IsDistinct :
    (a : String) (xs : List String)
    → contains xs a ≡ false
    → IsDistinct xs
    → IsDistinct (insert_text a xs)
unfolding insert_text
insert_text-IsDistinct a [] h d = (h, tt)
insert_text-IsDistinct a (x ∷ xs) h d =
    ground (arith, eq_iff x a, eq_iff a x, contains-insert_text a x xs, insert_text-IsDistinct a xs)

pub sort-IsDistinct : (xs : List String) → IsDistinct xs → IsDistinct (sort xs)
unfolding sort
sort-IsDistinct [] d = tt
sort-IsDistinct (x ∷ xs) d =
    insert_text-IsDistinct x (sort xs) (contains-sort xs x ∙ d.0) (sort-IsDistinct xs d.1)
