-- ===== src/Common/Members.antt =====
-- Membership in lists that are mapped, filtered or joined, and what a search by a test finds.
use mathlib.Core.Path.{◌≡◌, refl, sym, subst}
use mathlib.Core.Bool.{Bool, true, false, ◌||◌}
use mathlib.Core.List.{List, [], ◌∷◌, ◌++◌, map, Memᴰ}
use mathlib.Core.Logic.{◌⊎◌, inl, inr}
use native.Mathlib.Omega.{arith}
use lopata.Common.Lists.{keep, any}
use lopata.Common.Tests.{Bool-cases, or_iff}

module _ {ℓ} {A : Type ℓ} where
  mem-uncons : (g x : A) (xs : List A) → Memᴰ g (x ∷ xs) → (g ≡ x) ⊎ Memᴰ g xs
  mem-uncons g x xs (Memᴰ.head e) = inl e
  mem-uncons g x xs (Memᴰ.tail m) = inr m

  mem-cons :
      (g x : A) (xs ys : List A) → (Memᴰ g xs → Memᴰ g ys) → Memᴰ g (x ∷ xs) → Memᴰ g (x ∷ ys)
  mem-cons g x xs ys f (Memᴰ.head e) = Memᴰ.head e
  mem-cons g x xs ys f (Memᴰ.tail m) = Memᴰ.tail (f m)

  pub mem-keep : (p : A → Bool) (xs : List A) (g : A) → Memᴰ g (keep p xs) → Memᴰ g xs
  mem-keep p [] g m = elim m [ ]
  mem-keep p (x ∷ xs) g m = elim (Bool-cases (p x)) [
    | inl e ↦ mem-cons g x (keep p xs) xs (mem-keep p xs g) (rw e at m)
    | inr e ↦ Memᴰ.tail (mem-keep p xs g (rw e at m))
  ]

  pub holds_of_keep : (p : A → Bool) (xs : List A) (g : A) → Memᴰ g (keep p xs) → p g ≡ true
  holds_of_keep p [] g m = elim m [ ]
  holds_of_keep p (x ∷ xs) g m = elim (Bool-cases (p x)) [
    | inr e ↦ holds_of_keep p xs g (rw e at m)
    | inl e ↦ elim (mem-uncons g x (keep p xs) (rw e at m)) [
      | inl q ↦ subst (λ y. p y ≡ true) (sym q) e
      | inr n ↦ holds_of_keep p xs g n
    ]
  ]

  pub keep-mem : (p : A → Bool) (xs : List A) (g : A) → Memᴰ g xs → p g ≡ true → Memᴰ g (keep p xs)
  keep-mem p [] g m h = elim m [ ]
  keep-mem p (x ∷ xs) g (Memᴰ.head q) h =
      let here = subst (λ y. p y ≡ true) q h in rw here (Memᴰ.head q)
  keep-mem p (x ∷ xs) g (Memᴰ.tail m) h = elim (Bool-cases (p x)) [
    | inl e ↦ rw e (Memᴰ.tail (keep-mem p xs g m h))
    | inr e ↦ rw e (keep-mem p xs g m h)
  ]

  pub mem-append : (xs ys : List A) (g : A) → Memᴰ g (xs ++ ys) → Memᴰ g xs ⊎ Memᴰ g ys
  mem-append [] ys g m = inr m
  mem-append (x ∷ xs) ys g (Memᴰ.head e) = inl (Memᴰ.head e)
  mem-append (x ∷ xs) ys g (Memᴰ.tail m) = elim (mem-append xs ys g m) [
    | inl n ↦ inl (Memᴰ.tail n)
    | inr n ↦ inr n
  ]

  pub append-mem_left : (xs ys : List A) (g : A) → Memᴰ g xs → Memᴰ g (xs ++ ys)
  append-mem_left [] ys g m = elim m [ ]
  append-mem_left (x ∷ xs) ys g (Memᴰ.head e) = Memᴰ.head e
  append-mem_left (x ∷ xs) ys g (Memᴰ.tail m) = Memᴰ.tail (append-mem_left xs ys g m)

  pub append-mem_right : (xs ys : List A) (g : A) → Memᴰ g ys → Memᴰ g (xs ++ ys)
  append-mem_right [] ys g m = m
  append-mem_right (x ∷ xs) ys g m = Memᴰ.tail (append-mem_right xs ys g m)

  -- A new last element.
  pub mem-snoc : (xs : List A) (x g : A) → Memᴰ g (xs ++ (x ∷ [])) → Memᴰ g xs ⊎ (g ≡ x)
  mem-snoc xs x g m = elim (mem-append xs (x ∷ []) g m) [
    | inl n ↦ inl n
    | inr n ↦ elim (mem-uncons g x [] n) [ inl e ↦ inr e | inr none_left ↦ elim none_left [ ] ]
  ]

  pub any-mem : (p : A → Bool) (xs : List A) (g : A) → Memᴰ g xs → p g ≡ true → any p xs ≡ true
  any-mem p [] g m h = elim m [ ]
  any-mem p (x ∷ xs) g (Memᴰ.head q) h =
      (or_iff (p x) (any p xs)).1 (inl (subst (λ y. p y ≡ true) q h))
  any-mem p (x ∷ xs) g (Memᴰ.tail m) h = (or_iff (p x) (any p xs)).1 (inr (any-mem p xs g m h))

  pub any-none :
      (p : A → Bool) (xs : List A) → ((g : A) → Memᴰ g xs → p g ≡ false) → any p xs ≡ false
  any-none p [] h = refl
  any-none p (x ∷ xs) h =
      let here = h x (Memᴰ.head refl) in
      let rest = any-none p xs (λ g m. h g (Memᴰ.tail m)) in rw (here, rest) refl

  pub none-mem : (p : A → Bool) (xs : List A) (g : A) → any p xs ≡ false → Memᴰ g xs → p g ≡ false
  none-mem p xs g h m = elim (Bool-cases (p g)) [
    | inr e ↦ e
    | inl e ↦ absurd (let found = any-mem p xs g m e in ground arith)
  ]

  pub mem_of_any :
      (p : A → Bool) (xs : List A) → any p xs ≡ true → (g : A) × Memᴰ g xs × (p g ≡ true)
  mem_of_any p [] h = absurd (ground arith)
  mem_of_any p (x ∷ xs) h = elim ((or_iff (p x) (any p xs)).0 h) [
    | inl e ↦ (x, Memᴰ.head refl, e)
    | inr e ↦ let (g, m, q) = mem_of_any p xs e in (g, Memᴰ.tail m, q)
  ]

  pub any-append : (p : A → Bool) (xs ys : List A) → any p (xs ++ ys) ≡ (any p xs || any p ys)
  any-append p [] ys = refl
  any-append p (x ∷ xs) ys = ground (arith, any-append p xs ys)

module _ {ℓ κ} {A : Type ℓ} {B : Type κ} where
  -- Where an element of a mapped list comes from.
  pub mem-map :
      (f : A → B) (xs : List A) (g : B) → Memᴰ g (map f xs) → (h : A) × Memᴰ h xs × (g ≡ f h)
  mem-map f [] g m = elim m [ ]
  mem-map f (x ∷ xs) g (Memᴰ.head e) = (x, Memᴰ.head refl, e)
  mem-map f (x ∷ xs) g (Memᴰ.tail m) = let (h, n, e) = mem-map f xs g m in (h, Memᴰ.tail n, e)
