-- ===== src/Base/Lists.antt =====
-- Lists over the native numbers, with Boolean tests: what `SELECT … WHERE`, `UPDATE … WHERE`,
-- `DELETE … WHERE` and the functions of Go's `slices` do.
use Prim.Native.Nat.{ℕ, zero, suc, ◌+◌, ◌≤◌}
use Prim.Native.String.{String, compare}
use mathlib.Core.Path.{◌≡◌, refl}
use mathlib.Core.Bool.{Bool, true, false, not, ◌&&◌, ◌||◌}
use mathlib.Core.Option.{Option, none, some}
use mathlib.Core.List.{List, [], ◌∷◌, ◌++◌}
use native.Mathlib.Omega.{arith}
use text.Mathlib.Text.{is_le}
use golang_backend.Base.Equality.{Eq, ◌==◌, if◌then◌else◌}

module _ {ℓ} {A : Type ℓ} where
  abbrev pub length : List A → ℕ
  length [] = 0
  length (x ∷ xs) = suc (length xs)

  abbrev pub take : ℕ → List A → List A
  take zero xs = []
  take (suc n) [] = []
  take (suc n) (x ∷ xs) = x ∷ take n xs

  abbrev pub get_elem? : List A → ℕ → Option A
  get_elem? [] i = none
  get_elem? (x ∷ xs) zero = some x
  get_elem? (x ∷ xs) (suc i) = get_elem? xs i

  -- the rows that a test selects
  abbrev pub keep_if : (A → Bool) → List A → List A
  keep_if p [] = []
  keep_if p (x ∷ xs) = let rest = keep_if p xs in if p x then x ∷ rest else rest

  abbrev pub find_first : (A → Bool) → List A → Option A
  find_first p [] = none
  find_first p (x ∷ xs) = let rest = find_first p xs in if p x then some x else rest

  abbrev pub update_where : (A → Bool) → (A → A) → List A → List A
  update_where p f [] = []
  update_where p f (x ∷ xs) = (if p x then f x else x) ∷ update_where p f xs

  abbrev pub any : (A → Bool) → List A → Bool
  any p [] = false
  any p (x ∷ xs) = p x || any p xs

  abbrev pub all : (A → Bool) → List A → Bool
  all p [] = true
  all p (x ∷ xs) = p x && all p xs

  pub length-append : (xs ys : List A) → length (xs ++ ys) ≡ length xs + length ys
  length-append [] ys = omega arith
  length-append (x ∷ xs) ys = omega (arith, length-append xs ys)

  pub length-take-le : (n : ℕ) (xs : List A) → length (take n xs) ≤ n
  length-take-le zero xs = omega arith
  length-take-le (suc n) [] = omega arith
  length-take-le (suc n) (x ∷ xs) = omega (arith, length-take-le n xs)

  pub any-append : (p : A → Bool) (xs ys : List A) → any p (xs ++ ys) ≡ (any p xs || any p ys)
  any-append p [] ys = refl
  any-append p (x ∷ xs) ys = ground (arith, any-append p xs ys)

  pub find_first-none : (p : A → Bool) (xs : List A) → any p xs ≡ false → find_first p xs ≡ none
  find_first-none p [] h = refl
  find_first-none p (x ∷ xs) h = ground (arith, find_first-none p xs)

  pub any-or :
      (p q : A → Bool) (xs : List A) → any p xs ≡ false → any (λ x. p x || q x) xs ≡ any q xs
  any-or p q [] h = refl
  any-or p q (x ∷ xs) h = ground (arith, any-or p q xs)

  -- a second test that no row meets beside the first takes no row away
  pub length-keep_if-and :
      (p q : A → Bool) (xs : List A)
      → any (λ x. p x && q x) xs ≡ false
      → length (keep_if (λ x. p x && not (q x)) xs) ≡ length (keep_if p xs)
  length-keep_if-and p q [] h = refl
  length-keep_if-and p q (x ∷ xs) h = ground (arith, length-keep_if-and p q xs)

  -- `ORDER BY`: insertion by a test for "may stand before"
  abbrev pub insert_by : (A → A → Bool) → A → List A → List A
  insert_by before x [] = x ∷ []
  insert_by before x (y ∷ ys) =
      let rest = insert_by before x ys in if before x y then x ∷ y ∷ ys else y ∷ rest

  abbrev pub sort_by : (A → A → Bool) → List A → List A
  sort_by before [] = []
  sort_by before (x ∷ xs) = insert_by before x (sort_by before xs)

module _ {ℓ} {A : Type ℓ} ⦃e : Eq A⦄ where
  abbrev pub contains : List A → A → Bool
  contains [] a = false
  contains (x ∷ xs) a = a == x || contains xs a

  -- `slices.Compact`: of equal neighbours one stays
  abbrev pub skip_equal : A → List A → List A
  skip_equal a [] = []
  skip_equal a (x ∷ xs) = let rest = skip_equal x xs in if a == x then rest else x ∷ rest

  abbrev pub compact : List A → List A
  compact [] = []
  compact (x ∷ xs) = x ∷ skip_equal x xs

  pub contains-insert_by :
      (before : A → A → Bool) (x : A) (ys : List A) (a : A)
      → contains (insert_by before x ys) a ≡ (a == x || contains ys a)
  contains-insert_by before x [] a = refl
  contains-insert_by before x (y ∷ ys) a = ground (arith, contains-insert_by before x ys a)

  pub contains-sort_by :
      (before : A → A → Bool) (xs : List A) (a : A) → contains (sort_by before xs) a ≡ contains xs a
  contains-sort_by before [] a = refl
  contains-sort_by before (x ∷ xs) a =
      ground
        (arith, contains-insert_by before x (sort_by before xs) a, contains-sort_by before xs a)

  contains-skip_equal :
      (x : A) (xs : List A) (a : A)
      → (a == x || contains (skip_equal x xs) a) ≡ (a == x || contains xs a)
  contains-skip_equal x [] a = refl
  contains-skip_equal x (y ∷ xs) a = ground (arith, contains-skip_equal y xs a)

  pub contains-compact : (xs : List A) (a : A) → contains (compact xs) a ≡ contains xs a
  contains-compact [] a = refl
  contains-compact (x ∷ xs) a = contains-skip_equal x xs a

-- Go's `<=` on strings, and PostgreSQL's order of uuids in their canonical text
abbrev pub text_le : String → String → Bool
text_le s t = is_le (compare s t)
