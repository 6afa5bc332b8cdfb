-- ===== src/Common/Lists.antt =====
-- Lists measured by native numbers, searches, and predicates that hold of every element.
use Prim.Native.Nat.{ℕ, zero, suc, ◌+◌, ◌-◌, ◌≤◌, min}
use mathlib.Core.Path.{◌≡◌, refl, sym, ap, ◌∙◌, subst}
use mathlib.Core.Bool.{Bool, true, false, ◌||◌}
use mathlib.Core.List.{List, [], ◌∷◌, ◌++◌, map, Memᴰ}
use mathlib.Core.Option.{Option, none, some}
use mathlib.Core.Logic.{inl, inr}
use native.Mathlib.Omega.{arith}
use lopata.Common.Tests.{leb, Bool-cases, if◌then◌else◌}

module _ {ℓ} {A : Type ℓ} where
  abbrev pub length : List A → ℕ
  length [] = 0
  length (x ∷ xs) = suc (length xs)

  abbrev pub take : ℕ → List A → List A
  take zero xs = []
  take (suc n) [] = []
  take (suc n) (x ∷ xs) = x ∷ take n xs

  abbrev pub drop : ℕ → List A → List A
  drop zero xs = xs
  drop (suc n) [] = []
  drop (suc n) (x ∷ xs) = drop n xs

  pub length-append : (xs ys : List A) → length (xs ++ ys) ≡ length xs + length ys
  length-append [] ys = omega arith
  length-append (x ∷ xs) ys = omega (arith, length-append xs ys)

  pub take-append-drop : (n : ℕ) (xs : List A) → take n xs ++ drop n xs ≡ xs
  take-append-drop zero xs = refl
  take-append-drop (suc n) [] = refl
  take-append-drop (suc n) (x ∷ xs) = ap (λ l. x ∷ l) (take-append-drop n xs)

  pub length-take : (n : ℕ) (xs : List A) → length (take n xs) ≡ min n (length xs)
  length-take zero xs = omega arith
  length-take (suc n) [] = omega arith
  length-take (suc n) (x ∷ xs) = omega (arith, length-take n xs)

  pub length-drop : (n : ℕ) (xs : List A) → length (drop n xs) ≡ length xs - n
  length-drop zero xs = omega arith
  length-drop (suc n) [] = omega arith
  length-drop (suc n) (x ∷ xs) = omega (arith, length-drop n xs)

  pub take-append : (xs ys : List A) → take (length xs) (xs ++ ys) ≡ xs
  take-append [] ys = refl
  take-append (x ∷ xs) ys = ap (λ l. x ∷ l) (take-append xs ys)

  pub drop-append : (xs ys : List A) → drop (length xs) (xs ++ ys) ≡ ys
  drop-append [] ys = refl
  drop-append (x ∷ xs) ys = drop-append xs ys

abbrev pub is_nil {ℓ} : {A : Type ℓ} → List A → Bool
is_nil [] = true
is_nil (x ∷ xs) = false

-- `filter`, `some` and `find` of JavaScript's arrays, by a Boolean test.
module _ {ℓ} {A : Type ℓ} where
  abbrev pub keep : (A → Bool) → List A → List A
  keep p [] = []
  keep p (x ∷ xs) = if p x then x ∷ keep p xs else keep p xs

  abbrev pub any : (A → Bool) → List A → Bool
  any p [] = false
  any p (x ∷ xs) = p x || any p xs

  abbrev pub find : (A → Bool) → List A → Option A
  find p [] = none
  find p (x ∷ xs) = if p x then some x else find p xs

module _ {ℓ κ} {A : Type ℓ} (P : A → Type κ) where
  abbrev pub All : List A → Type κ
  All [] = Unit
  All (x ∷ xs) = P x × All xs

  pub All-at : {x : A} {xs : List A} → Memᴰ x xs → All xs → P x
  All-at (Memᴰ.head e) (p, _) = subst P (sym e) p
  All-at (Memᴰ.tail m) (_, h) = All-at m h

  pub All-intro : (xs : List A) → ((x : A) → Memᴰ x xs → P x) → All xs
  All-intro [] f = tt
  All-intro (x ∷ xs) f = (f x (Memᴰ.head refl), All-intro xs (λ y m. f y (Memᴰ.tail m)))

  pub All-append : (xs ys : List A) → All xs → All ys → All (xs ++ ys)
  All-append [] ys _ k = k
  All-append (x ∷ xs) ys (p, h) k = (p, All-append xs ys h k)

  pub All-keep : (q : A → Bool) (xs : List A) → All xs → All (keep q xs)
  All-keep q [] h = tt
  All-keep q (x ∷ xs) (p, h) = ground (arith, All-keep q xs h)

  pub All-take : (n : ℕ) (xs : List A) → All xs → All (take n xs)
  All-take zero xs h = tt
  All-take (suc n) [] h = tt
  All-take (suc n) (x ∷ xs) (p, h) = (p, All-take n xs h)

-- A property that follows from another, or from a test that selected the elements.
module _ {ℓ κ} {A : Type ℓ} {P Q : A → Type κ} where
  pub All-map : (f : (x : A) → P x → Q x) (xs : List A) → All P xs → All Q xs
  All-map f [] h = tt
  All-map f (x ∷ xs) (p, h) = (f x p, All-map f xs h)

-- SQL's `ORDER BY` on a number, ascending; ties stay in the order of insertion.
module _ {ℓ} {A : Type ℓ} (by : A → ℕ) where
  unfoldable pub insert_by : A → List A → List A
  insert_by x [] = x ∷ []
  insert_by x (y ∷ ys) =
      let later = insert_by x ys in if leb (by x) (by y) then x ∷ y ∷ ys else y ∷ later

  unfoldable pub order_by : List A → List A
  unfolding insert_by
  order_by [] = []
  order_by (x ∷ xs) = insert_by x (order_by xs)

  pub All-insert_by {κ} :
      (P : A → Type κ) (x : A) (ys : List A) → P x → All P ys → All P (insert_by x ys)
  unfolding insert_by
  All-insert_by P x [] p h = (p, tt)
  All-insert_by P x (y ∷ ys) p (q, h) = ground (arith, All-insert_by P x ys p h)

  pub All-order_by {κ} : (P : A → Type κ) (xs : List A) → All P xs → All P (order_by xs)
  unfolding order_by
  All-order_by P [] h = tt
  All-order_by P (x ∷ xs) (p, h) = All-insert_by P x (order_by xs) p (All-order_by P xs h)

-- Membership in what the list functions return.
module _ {ℓ} {A : Type ℓ} where
  pub find-mem :
      (p : A → Bool) (xs : List A) (x : A) → find p xs ≡ some x → Memᴰ x xs × (p x ≡ true)
  find-mem p [] x h = absurd (ground arith)
  find-mem p (y ∷ ys) x h = elim (Bool-cases (p y)) [
    | inl e ↦
        let same : y ≡ x = ground arith in (Memᴰ.head (sym same), subst (λ z. p z ≡ true) same e)
    | inr e ↦ let (m, q) = find-mem p ys x (ground arith) in (Memᴰ.tail m, q)
  ]

  pub any_of_find : (p : A → Bool) (xs : List A) (x : A) → find p xs ≡ some x → any p xs ≡ true
  any_of_find p [] x h = cc
  any_of_find p (y ∷ ys) x h = ground (arith, any_of_find p ys x)

  pub any_of_find-none : (p : A → Bool) (xs : List A) → find p xs ≡ none → any p xs ≡ false
  any_of_find-none p [] h = refl
  any_of_find-none p (y ∷ ys) h = ground (arith, any_of_find-none p ys)

  pub All-mem : (xs : List A) → All (λ x. Memᴰ x xs) xs
  All-mem xs = All-intro (λ x. Memᴰ x xs) xs (λ x m. m)

module _ {ℓ κ μ} {A : Type ℓ} {B : Type κ} (P : B → Type μ) (f : A → B) where
  pub All-map_list : (xs : List A) → All (λ x. P (f x)) xs → All P (map f xs)
  All-map_list [] h = tt
  All-map_list (x ∷ xs) (p, h) = (p, All-map_list xs h)

-- What passed a filter passes its test.
pub All-keep_test {ℓ} :
    {A : Type ℓ} (p : A → Bool) (xs : List A) → All (λ x. p x ≡ true) (keep p xs)
All-keep_test p [] = tt
All-keep_test p (x ∷ xs) = elim (Bool-cases (p x)) [
  | inl e ↦ rw e (e, All-keep_test p xs)
  | inr e ↦ rw e (All-keep_test p xs)
]

pub All-both {ℓ κ μ} :
    {A : Type ℓ} (P : A → Type κ) (Q : A → Type μ) (xs : List A)
    → All P xs
    → All Q xs
    → All (λ x. P x × Q x) xs
All-both P Q [] h k = tt
All-both P Q (x ∷ xs) (p, h) (q, k) = ((p, q), All-both P Q xs h k)

-- Lists that are cut twice, or not at all.
module _ {ℓ} {A : Type ℓ} where
  pub take-long : (n : ℕ) (xs : List A) → length xs ≤ n → take n xs ≡ xs
  take-long zero [] h = refl
  take-long zero (x ∷ xs) h = absurd (omega (arith, h))
  take-long (suc n) [] h = refl
  take-long (suc n) (x ∷ xs) h = ap (λ l. x ∷ l) (take-long n xs (omega (arith, h)))

  pub take-take : (m n : ℕ) (xs : List A) → m ≤ n → take m (take n xs) ≡ take m xs
  take-take zero n xs h = refl
  take-take (suc m) zero xs h = absurd (omega (arith, h))
  take-take (suc m) (suc n) [] h = refl
  take-take (suc m) (suc n) (x ∷ xs) h = ap (λ l. x ∷ l) (take-take m n xs (omega (arith, h)))

  pub drop-nil : (n : ℕ) → drop {A = A} n [] ≡ []
  drop-nil zero = refl
  drop-nil (suc n) = refl

  pub drop-drop : (k m : ℕ) (xs : List A) → drop m (drop k xs) ≡ drop (k + m) xs
  drop-drop zero m xs = let e : m ≡ 0 + m = omega arith in ap (λ n. drop n xs) e
  drop-drop (suc k) m [] = drop-nil m ∙ sym (drop-nil (suc k + m))
  drop-drop (suc k) m (x ∷ xs) =
      let e : suc (k + m) ≡ suc k + m = omega arith in
      drop-drop k m xs ∙ ap (λ n. drop n (x ∷ xs)) e
