-- ===== src/Common/Lists.antt =====
-- Lists over the native numbers.
use Prim.Native.Nat.{ℕ, zero, suc, ◌+◌, ◌-◌, ◌≤◌, min}
use mathlib.Core.Path.{◌≡◌, refl, ap}
use mathlib.Core.Logic.{inl, inr}
use mathlib.Core.Bool.{Bool, true, false, ◌||◌}
use mathlib.Core.List.{List, [], ◌∷◌, ◌++◌, map}
use native.Mathlib.Omega.{arith}
use github_pr_review_agent.Common.Tests.{if◌then◌else◌, Bool-cases}

module _ {ℓ} {A : Type ℓ} where
  abbrev pub length : List A → ℕ
  length [] = 0
  length (x ∷ xs) = suc (length xs)

  abbrev pub take : ℕ → List A → List A
  take zero xs = []
  take (suc n) [] = []
  take (suc n) (x ∷ xs) = x ∷ take n xs

  abbrev pub drop : ℕ → List A → List A
  drop zero xs = xs
  drop (suc n) [] = []
  drop (suc n) (x ∷ xs) = drop n xs

  -- The elements that pass a Boolean test.
  abbrev pub select : (A → Bool) → List A → List A
  select p [] = []
  select p (x ∷ xs) = let rest = select p xs in if p x then x ∷ rest else rest

  -- How many elements pass a Boolean test.
  abbrev pub tally : (A → Bool) → List A → ℕ
  tally p [] = 0
  tally p (x ∷ xs) = let rest = tally p xs in if p x then suc rest else rest

  pub length-append : (xs ys : List A) → length (xs ++ ys) ≡ length xs + length ys
  length-append [] ys = omega arith
  length-append (x ∷ xs) ys = omega (arith, length-append xs ys)

  pub length-take : (n : ℕ) (xs : List A) → length (take n xs) ≤ n
  length-take zero xs = omega arith
  length-take (suc n) [] = omega arith
  length-take (suc n) (x ∷ xs) = omega (arith, length-take n xs)

  pub length-take-min : (k : ℕ) (l : List A) → length (take k l) ≡ min k (length l)
  length-take-min zero l = ground arith
  length-take-min (suc k) [] = ground arith
  length-take-min (suc k) (x ∷ l) = omega (arith, length-take-min k l)

  pub take-append :
      (n : ℕ) (xs ys : List A) → length xs ≤ n → take n (xs ++ ys) ≡ xs ++ take (n - length xs) ys
  take-append n [] ys h = ap (λ m. take m ys) (omega arith)
  take-append zero (x ∷ xs) ys h = absurd (omega arith)
  take-append (suc n) (x ∷ xs) ys h =
      let less : suc n - suc (length xs) ≡ n - length xs = omega arith in
      rw less (ap (λ t. x ∷ t) (take-append n xs ys (omega arith)))

  abbrev pub All {κ} : (A → Type κ) → List A → Type κ
  All P [] = Unit
  All P (x ∷ xs) = P x × All P xs

  pub take-All {κ} : (P : A → Type κ) (n : ℕ) (xs : List A) → All P xs → All P (take n xs)
  take-All P zero xs h = tt
  take-All P (suc n) [] h = tt
  take-All P (suc n) (x ∷ xs) h = (h.0, take-All P n xs h.1)

  -- Whether an element passes a Boolean test.
  unfoldable pub any : List A → (A → Bool) → Bool
  any [] p = false
  any (x ∷ xs) p = p x || any xs p

  pub any_ext : (xs : List A) (p q : A → Bool) → ((x : A) → p x ≡ q x) → any xs p ≡ any xs q
  unfolding any
  any_ext [] p q h = refl
  any_ext (x ∷ xs) p q h = ground (arith, h x, any_ext xs p q h)

  -- The element that passed, with what stands before and after it.
  pub any_found :
      (xs : List A) (p : A → Bool)
      → any xs p ≡ true
      → (before : List A) × (x : A) × (after : List A) × (xs ≡ before ++ x ∷ after) × (p x ≡ true)
  unfolding any
  any_found [] p h = absurd (cc)
  any_found (x ∷ xs) p h = elim (Bool-cases (p x)) [
    | inl e ↦ ([], x, xs, refl, e)
    | inr e ↦
        let (before, y, after, eq, hy) = any_found xs p (ground arith) in
        (x ∷ before, y, after, ap (λ t. x ∷ t) eq, hy)
  ]

  pub any-append : (xs ys : List A) (p : A → Bool) → any (xs ++ ys) p ≡ (any xs p || any ys p)
  unfolding any
  any-append [] ys p = refl
  any-append (x ∷ xs) ys p = ground (arith, any-append xs ys p)

-- A test of a list that was mapped, and of a disjunction.
module _ {ℓ κ} {A : Type ℓ} {B : Type κ} where
  pub any-map : (f : A → B) (xs : List A) (p : B → Bool) → any (map f xs) p ≡ any xs (λ x. p (f x))
  unfolding any
  any-map f [] p = refl
  any-map f (x ∷ xs) p = ground (arith, any-map f xs p)

pub any-or {ℓ} :
    {A : Type ℓ} (xs : List A) (p q : A → Bool) → any xs (λ x. p x || q x) ≡ (any xs p || any xs q)
unfolding any
any-or [] p q = refl
any-or (x ∷ xs) p q = ground (arith, any-or xs p q)
