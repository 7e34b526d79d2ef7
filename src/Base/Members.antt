-- ===== src/Base/Members.antt =====
-- Membership in a list, and what an update of some rows keeps of all.
use mathlib.Core.Path.{◌≡◌, refl, ap, ◌∙◌}
use mathlib.Core.Logic.{◌⊎◌, inl, inr}
use mathlib.Core.Bool.{Bool, true, false, not, ◌||◌}
use mathlib.Core.List.{List, [], ◌∷◌}
use native.Mathlib.Omega.{arith}
use golang_backend.Base.Equality.{if◌then◌else◌, Bool-cases}
use golang_backend.Base.Lists.{any, all, keep_if, update_where, insert_by, sort_by}

module _ {A : Type 0} where
  abbrev pub In : A → List A → Type 0
  In a [] = ⊥
  In a (x ∷ xs) = (a ≡ x) ⊎ In a xs

  either_tail :
      (b : Bool) (x y : A) (ys zs : List A) (a : A)
      → (In a zs → (a ≡ x) ⊎ In a ys)
      → In a (if b then x ∷ y ∷ ys else y ∷ zs)
      → (a ≡ x) ⊎ In a (y ∷ ys)
  either_tail true x y ys zs a k h = h
  either_tail false x y ys zs a k (inl e) = inr (inl e)
  either_tail false x y ys zs a k (inr h) = elim (k h) [ inl e ↦ inl e | inr i ↦ inr (inr i) ]

  In-insert_by :
      (before : A → A → Bool) (x : A) (ys : List A) (a : A)
      → In a (insert_by before x ys)
      → (a ≡ x) ⊎ In a ys
  In-insert_by before x [] a h = h
  In-insert_by before x (y ∷ ys) a h =
      either_tail (before x y) x y ys (insert_by before x ys) a (In-insert_by before x ys a) h

  pub In-sort_by :
      (before : A → A → Bool) (xs : List A) (a : A) → In a (sort_by before xs) → In a xs
  In-sort_by before [] a h = h
  In-sort_by before (x ∷ xs) a h = elim (In-insert_by before x (sort_by before xs) a h) [
    | inl e ↦ inl e
    | inr i ↦ inr (In-sort_by before xs a i)
  ]

  kept_tail :
      (p : A → Bool) (b : Bool) (x : A) (xs ys : List A) (a : A)
      → p x ≡ b
      → (In a ys → In a xs × (p a ≡ true))
      → In a (if b then x ∷ ys else ys)
      → In a (x ∷ xs) × (p a ≡ true)
  kept_tail p true x xs ys a e k (inl same) = (inl same, ap p same ∙ e)
  kept_tail p true x xs ys a e k (inr i) = let (i', q) = k i in (inr i', q)
  kept_tail p false x xs ys a e k i = let (i', q) = k i in (inr i', q)

  pub In-keep_if :
      (p : A → Bool) (xs : List A) (a : A) → In a (keep_if p xs) → In a xs × (p a ≡ true)
  In-keep_if p [] a h = absurd h
  In-keep_if p (x ∷ xs) a h = kept_tail p (p x) x xs (keep_if p xs) a refl (In-keep_if p xs a) h

  pub any-In : (p : A → Bool) (xs : List A) → any p xs ≡ true → (a : A) × In a xs × (p a ≡ true)
  any-In p [] h = absurd (cc h)
  any-In p (x ∷ xs) h = elim (Bool-cases (p x)) [
    | inl here ↦ (x, inl refl, here)
    | inr past ↦ let (a, there, passes) = any-In p xs (ground arith) in (a, inr there, passes)
  ]

  pub all-In : (p : A → Bool) (xs : List A) (a : A) → all p xs ≡ true → In a xs → p a ≡ true
  all-In p [] a h i = absurd i
  all-In p (x ∷ xs) a h (inl e) = ground (arith, e)
  all-In p (x ∷ xs) a h (inr i) = ground (arith, all-In p xs a)

  -- rows that are changed keep a property that the change keeps where it is made
  pub all-update_where :
      (p q r : A → Bool) (f : A → A) (xs : List A)
      → ((x : A) → p x ≡ true → q x ≡ true → r x ≡ true → p (f x) ≡ true)
      → all p xs ≡ true
      → all (λ x. not (q x) || r x) xs ≡ true
      → all p (update_where q f xs) ≡ true
  all-update_where p q r f [] keeps h k = refl
  all-update_where p q r f (x ∷ xs) keeps h k =
      ground (arith, all-update_where p q r f xs keeps, keeps x)

  pub all-keep_if : (p q : A → Bool) (xs : List A) → all p xs ≡ true → all p (keep_if q xs) ≡ true
  all-keep_if p q [] h = refl
  all-keep_if p q (x ∷ xs) h = ground (arith, all-keep_if p q xs)
