-- ===== src/Base/Lists.antt =====
-- Lists measured and cut by native numbers, under the library's names, and membership as a
-- predicate by recursion, which the tactics open.
use Prim.Native.Nat.{ℕ, zero, suc, ◌+◌}
use mathlib.Core.Path.{◌≡◌, refl, sym, subst}
use mathlib.Core.Bool.{Bool}
use mathlib.Core.Logic.{◌⊎◌, inl, inr}
use mathlib.Core.List.{List, [], ◌∷◌, ◌++◌}
use mathlib.Core.Logic.{∥∥₁_elim}
use mathlib.Core.List.{Mem, Memᴰ, Perm, mem-cons_self, mem-cons_of_mem}
use mathlib.Core.List.Perm
use native.Mathlib.Omega.{arith}
use lunaship.Base.Tests.{if◌then◌else◌, Bool-cases}

module _ {ℓ} {A : Type ℓ} where
  abbrev pub length : List A → ℕ
  length [] = 0
  length (x ∷ xs) = suc (length xs)

  abbrev pub take : ℕ → List A → List A
  take zero xs = []
  take (suc n) [] = []
  take (suc n) (x ∷ xs) = x ∷ take n xs

  abbrev pub drop : ℕ → List A → List A
  drop zero xs = xs
  drop (suc n) [] = []
  drop (suc n) (x ∷ xs) = drop n xs

  -- The elements that pass a Boolean test, in order.
  unfoldable pub keep : (A → Bool) → List A → List A
  keep p [] = []
  keep p (x ∷ xs) = let rest = keep p xs in if p x then x ∷ rest else rest

  pub length-append : (xs ys : List A) → length (xs ++ ys) ≡ length xs + length ys
  length-append [] ys = omega arith
  length-append (x ∷ xs) ys = omega (arith, length-append xs ys)

  -- Every element satisfies the predicate.
  abbrev pub All {κ} : (A → Type κ) → List A → Type κ
  All P [] = Unit
  All P (x ∷ xs) = P x × All P xs

  pub All-append {κ} : (P : A → Type κ) (xs ys : List A) → All P xs → All P ys → All P (xs ++ ys)
  All-append P [] ys hx hy = hy
  All-append P (x ∷ xs) ys hx hy = (hx.0, All-append P xs ys hx.1 hy)

  pub All-both {κ μ} :
      (P : A → Type κ) (Q : A → Type μ) (xs : List A)
      → All P xs
      → All Q xs
      → All (λ x. P x × Q x) xs
  All-both P Q [] h k = tt
  All-both P Q (x ∷ xs) h k = ((h.0, k.0), All-both P Q xs h.1 k.1)

  pub All-keep {κ} : (P : A → Type κ) (p : A → Bool) (xs : List A) → All P xs → All P (keep p xs)
  unfolding keep
  All-keep P p [] h = tt
  All-keep P p (x ∷ xs) h = elim (Bool-cases (p x)) [
    | inl y ↦ simp y (h.0, All-keep P p xs h.1)
    | inr n ↦ simp n (All-keep P p xs h.1)
  ]

  pub List-cases : (xs : List A) → (xs ≡ []) ⊎ ((y : A) × (ys : List A) × (xs ≡ y ∷ ys))
  List-cases [] = inl refl
  List-cases (y ∷ ys) = inr (y, ys, refl)

  pub All-map {κ μ} :
      (P : A → Type κ) (Q : A → Type μ) (xs : List A) → ((x : A) → P x → Q x) → All P xs → All Q xs
  All-map P Q [] f h = tt
  All-map P Q (x ∷ xs) f h = (f x h.0, All-map P Q xs f h.1)

module _ {A : Type 0} where
  -- `x` is one of the elements, with its place kept.
  abbrev pub In : A → List A → Type 0
  In x [] = ⊥
  In x (y ∷ ys) = (x ≡ y) ⊎ In x ys

  pub In-append_left : (x : A) (xs ys : List A) → In x xs → In x (xs ++ ys)
  In-append_left x [] ys m = elim m [ ]
  In-append_left x (y ∷ xs) ys (inl e) = inl e
  In-append_left x (y ∷ xs) ys (inr m) = inr (In-append_left x xs ys m)

  pub In-append_right : (x : A) (xs ys : List A) → In x ys → In x (xs ++ ys)
  In-append_right x [] ys m = m
  In-append_right x (y ∷ xs) ys m = inr (In-append_right x xs ys m)

  pub In-append_split : (x : A) (xs ys : List A) → In x (xs ++ ys) → In x xs ⊎ In x ys
  In-append_split x [] ys m = inr m
  In-append_split x (y ∷ xs) ys (inl e) = inl (inl e)
  In-append_split x (y ∷ xs) ys (inr m) = elim (In-append_split x xs ys m) [
    | inl a ↦ inl (inr a)
    | inr b ↦ inr b
  ]

  pub In-self : (xs : List A) → All (λ x. In x xs) xs
  In-self [] = tt
  In-self (x ∷ xs) = (inl refl, All-map _ _ xs (λ y m. inr m) (In-self xs))

  pub All-In {κ} : (P : A → Type κ) (x : A) (xs : List A) → All P xs → In x xs → P x
  All-In P x [] h m = elim m [ ]
  All-In P x (y ∷ xs) h (inl e) = subst P (sym e) h.0
  All-In P x (y ∷ xs) h (inr m) = All-In P x xs h.1 m

  pub All-of {κ} : (P : A → Type κ) (xs : List A) → ((x : A) → In x xs → P x) → All P xs
  All-of P [] f = tt
  All-of P (x ∷ xs) f = (f x (inl refl), All-of P xs (λ y m. f y (inr m)))

  All-Memᴰ {κ} : (P : A → Type κ) (x : A) (xs : List A) → All P xs → Memᴰ x xs → P x
  All-Memᴰ P x [] h m = elim m [ ]
  All-Memᴰ P x (y ∷ xs) h (Memᴰ.head e) = subst P (sym e) h.0
  All-Memᴰ P x (y ∷ xs) h (Memᴰ.tail m) = All-Memᴰ P x xs h.1 m

  All-of_mem {κ} : (P : A → Type κ) (xs : List A) → ((x : A) → Mem x xs → P x) → All P xs
  All-of_mem P [] f = tt
  All-of_mem P (x ∷ xs) f = (f x mem-cons_self, All-of_mem P xs (λ y m. f y (mem-cons_of_mem x m)))

  -- A proposition about every element goes over to a permutation.
  pub All-perm {κ} :
      (P : A → Type κ) (xs ys : List A)
      → ((x : A) → IsProp (P x))
      → Perm xs ys
      → All P xs
      → All P ys
  All-perm P xs ys prop p h =
      All-of_mem P ys (λ y m. ∥∥₁_elim (Perm.subset (Perm.symm p) y m) (prop y) (All-Memᴰ P y xs h))
