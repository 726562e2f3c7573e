-- ===== src/Base/Shuffles.antt =====
-- Rearranged lists: what a test finds in a list does not depend on the order.
use mathlib.Core.Path.{◌≡◌, refl, ◌∙◌}
use mathlib.Core.Bool.{Bool}
use mathlib.Core.List.{List, [], ◌∷◌, ◌++◌}
use native.Mathlib.Omega.{arith}
use husky_ci.Base.Lists.{any, count, All}

-- One list is a rearrangement of the other.
pub data Shuffle {ℓ} {A : Type ℓ} : List A → List A → Type ℓ where
  nil : Shuffle [] []
  cons : (x : A) {xs ys : List A} → Shuffle xs ys → Shuffle (x ∷ xs) (x ∷ ys)
  swap : (x y : A) (xs : List A) → Shuffle (x ∷ y ∷ xs) (y ∷ x ∷ xs)
  trans : {xs ys zs : List A} → Shuffle xs ys → Shuffle ys zs → Shuffle xs zs

module _ {ℓ} {A : Type ℓ} where
  pub Shuffle-refl : (xs : List A) → Shuffle xs xs
  Shuffle-refl [] = nil
  Shuffle-refl (x ∷ xs) = cons x (Shuffle-refl xs)

  pub Shuffle-sym : {xs ys : List A} → Shuffle xs ys → Shuffle ys xs
  Shuffle-sym nil = nil
  Shuffle-sym (cons x s) = cons x (Shuffle-sym s)
  Shuffle-sym (swap x y xs) = swap y x xs
  Shuffle-sym (trans s t) = trans (Shuffle-sym t) (Shuffle-sym s)

  pub Shuffle-middle : (x : A) (xs ys : List A) → Shuffle (xs ++ (x ∷ ys)) (x ∷ (xs ++ ys))
  Shuffle-middle x [] ys = Shuffle-refl (x ∷ ys)
  Shuffle-middle x (y ∷ xs) ys = trans (cons y (Shuffle-middle x xs ys)) (swap y x (xs ++ ys))

  pub any-Shuffle : (p : A → Bool) {xs ys : List A} → Shuffle xs ys → any p xs ≡ any p ys
  any-Shuffle p nil = refl
  any-Shuffle p (cons x s) = rw (any-Shuffle p s) refl
  any-Shuffle p (swap x y xs) = ground arith
  any-Shuffle p (trans s t) = any-Shuffle p s ∙ any-Shuffle p t

  pub count-Shuffle : (p : A → Bool) {xs ys : List A} → Shuffle xs ys → count p xs ≡ count p ys
  count-Shuffle p nil = refl
  count-Shuffle p (cons x s) = rw (count-Shuffle p s) refl
  count-Shuffle p (swap x y xs) = omega arith
  count-Shuffle p (trans s t) = count-Shuffle p s ∙ count-Shuffle p t

module _ {ℓ} {A : Type ℓ} where
  pub Shuffle-append_left :
      (zs : List A) {xs ys : List A} → Shuffle xs ys → Shuffle (zs ++ xs) (zs ++ ys)
  Shuffle-append_left [] s = s
  Shuffle-append_left (z ∷ zs) s = cons z (Shuffle-append_left zs s)

  append_swap : (xs ys zs : List A) → Shuffle (xs ++ (ys ++ zs)) (ys ++ (xs ++ zs))
  append_swap [] ys zs = Shuffle-refl (ys ++ zs)
  append_swap (x ∷ xs) ys zs =
      trans (cons x (append_swap xs ys zs)) (Shuffle-sym (Shuffle-middle x ys (xs ++ zs)))

  pub All-Shuffle {κ} : (P : A → Type κ) {xs ys : List A} → Shuffle xs ys → All P xs → All P ys
  All-Shuffle P nil h = h
  All-Shuffle P (cons x s) (p, h) = (p, All-Shuffle P s h)
  All-Shuffle P (swap x y xs) (p, (q, h)) = (q, (p, h))
  All-Shuffle P (trans s t) h = All-Shuffle P t (All-Shuffle P s h)

module _ {ℓ κ} {A : Type ℓ} {B : Type κ} (f : A → List B) where
  -- The lists of all items, one after another.
  abbrev pub gather : List A → List B
  gather [] = []
  gather (x ∷ xs) = f x ++ gather xs

  pub gather-Shuffle : {xs ys : List A} → Shuffle xs ys → Shuffle (gather xs) (gather ys)
  gather-Shuffle nil = nil
  gather-Shuffle (cons x s) = Shuffle-append_left (f x) (gather-Shuffle s)
  gather-Shuffle (swap x y xs) = append_swap (f x) (f y) (gather xs)
  gather-Shuffle (trans s t) = trans (gather-Shuffle s) (gather-Shuffle t)
