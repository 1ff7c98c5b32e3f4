-- ===== src/Base/Lists.antt =====
-- Lists measured by native numbers, and predicates on their members.
use Prim.Native.Nat.{ℕ, suc, ◌+◌, ◌≤◌}
use mathlib.Core.Path.{◌≡◌, refl}
use mathlib.Core.Logic.{◌⊎◌, inl, inr}
use mathlib.Core.Bool.{Bool, true, false, ◌&&◌, ◌||◌}
use mathlib.Core.List.{List, [], ◌∷◌, ◌++◌}
use native.Mathlib.Omega.{arith}
use coactor.Base.Tests.{if◌then◌else◌}

module _ {ℓ} {A : Type ℓ} where
  abbrev pub length : List A → ℕ
  length [] = 0
  length (x ∷ xs) = suc (length xs)

  pub length-append : (xs ys : List A) → length (xs ++ ys) ≡ length xs + length ys
  length-append [] ys = omega arith
  length-append (x ∷ xs) ys = omega (arith, length-append xs ys)

  -- `Iterator::all`.
  abbrev pub all : (A → Bool) → List A → Bool
  all p [] = true
  all p (x ∷ xs) = p x && all p xs

  -- `Iterator::any`.
  abbrev pub any : (A → Bool) → List A → Bool
  any p [] = false
  any p (x ∷ xs) = p x || any p xs

  -- `Iterator::filter` with a Boolean test.
  abbrev pub keep : (A → Bool) → List A → List A
  keep p [] = []
  keep p (x ∷ xs) = if p x then x ∷ keep p xs else keep p xs

  pub append_cancel : (p : List A) {xs ys : List A} → p ++ xs ≡ p ++ ys → xs ≡ ys
  append_cancel [] h = h
  append_cancel (x ∷ p) h = append_cancel p (cc)

  pub length-keep-le : (p : A → Bool) (xs : List A) → length (keep p xs) ≤ length xs
  length-keep-le p [] = omega arith
  length-keep-le p (x ∷ xs) = ground (arith, length-keep-le p xs)

-- Every member satisfies the predicate.
abbrev pub All {ℓ κ} : {A : Type ℓ} → (A → Type κ) → List A → Type κ
All P [] = Unit
All P (x ∷ xs) = P x × All P xs

-- `x` is an entry of the list.
pub data In {ℓ} {A : Type ℓ} : A → List A → Type ℓ where
  here : {x : A} {xs : List A} → In x (x ∷ xs)
  there : {x y : A} {xs : List A} → In x xs → In x (y ∷ xs)

pub In_head {ℓ} : {A : Type ℓ} (x y : A) (xs : List A) → x ≡ y → In x (y ∷ xs)
In_head x y xs h = rw h here

pub In_cons {ℓ} : {A : Type ℓ} (x y : A) (xs : List A) → In x (y ∷ xs) → (x ≡ y) ⊎ In x xs
In_cons x y xs here = inl refl
In_cons x y xs (there h) = inr h

pub In-nil {ℓ} : {A : Type ℓ} (x : A) → ¬ In x []
In-nil x h = elim h [ ]
