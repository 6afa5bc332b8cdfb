-- ===== src/Common/Pairwise.antt =====
-- A relation that holds of every two elements of a list, and the list functions that keep it.
use Prim.Native.Nat.{ℕ, zero, suc}
use mathlib.Core.Bool.{Bool}
use mathlib.Core.List.{List, [], ◌∷◌, ◌++◌}
use native.Mathlib.Omega.{arith}
use lopata.Common.Lists.{
  All, All-keep, All-take, All-append, keep, take, insert_by, order_by, All-insert_by, All-order_by,
}

module _ {ℓ κ} {A : Type ℓ} (R : A → A → Type κ) where
  abbrev pub Pairs : List A → Type κ
  Pairs [] = Unit
  Pairs (x ∷ xs) = All (R x) xs × Pairs xs

  pub keep-Pairs : (p : A → Bool) (xs : List A) → Pairs xs → Pairs (keep p xs)
  keep-Pairs p [] h = tt
  keep-Pairs p (x ∷ xs) (first, h) = ground (arith, keep-Pairs p xs h, All-keep (R x) p xs first)

  pub take-Pairs : (n : ℕ) (xs : List A) → Pairs xs → Pairs (take n xs)
  take-Pairs zero xs h = tt
  take-Pairs (suc n) [] h = tt
  take-Pairs (suc n) (x ∷ xs) (first, h) = (All-take (R x) n xs first, take-Pairs n xs h)

  pub snoc-Pairs : (xs : List A) (y : A) → All (λ x. R x y) xs → Pairs xs → Pairs (xs ++ (y ∷ []))
  snoc-Pairs [] y k h = (tt, tt)
  snoc-Pairs (x ∷ xs) y (r, k) (first, h) =
      (All-append (R x) xs (y ∷ []) first (r, tt), snoc-Pairs xs y k h)

module _ {ℓ κ} {A : Type ℓ} (R : A → A → Type κ) (symm : (x y : A) → R x y → R y x)
    (by : A → ℕ) where
  insert_by-Pairs : (x : A) (ys : List A) → All (R x) ys → Pairs R ys → Pairs R (insert_by by x ys)
  unfolding insert_by
  insert_by-Pairs x [] k h = (tt, tt)
  insert_by-Pairs x (y ∷ ys) (r, k) (first, h) =
      ground (arith, insert_by-Pairs x ys k h, All-insert_by by (R y) x ys (symm x y r) first)

  pub order_by-Pairs : (xs : List A) → Pairs R xs → Pairs R (order_by by xs)
  unfolding order_by
  order_by-Pairs [] h = tt
  order_by-Pairs (x ∷ xs) (first, h) =
      insert_by-Pairs x (order_by by xs) (All-order_by by (R x) xs first) (order_by-Pairs xs h)
