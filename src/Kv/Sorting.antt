-- ===== src/Kv/Sorting.antt =====
-- The order in which src/bindings/kv.ts lists the rows.
use lopata.Common.{
  ◌≡◌, refl, ◌∙◌, Bool, true, false, List, [], ◌∷◌, if◌then◌else◌, arith, keep, All, All-map,
  All-keep, Pairs, Bool-cases, inl, inr,
}
use lopata.Kv.Keys.{Bytes, before, before_trans, before_total, before_asym}
use lopata.Kv.{Row}
use lopata.Kv.Listing.{insert_key, order_keys}

-- Not after: the order of a list that may have equal keys.
abbrev pub Upto : Row → Row → Type 0
Upto r s = before s.key r.key ≡ false

before-upto : (s t u : Bytes) → before s t ≡ true → before u t ≡ false → before u s ≡ false
before-upto s t u h k = elim (Bool-cases (before u s)) [
  | inr e ↦ e
  | inl e ↦ absurd (let l = before_trans u s t e h in ground arith)
]

upto_trans : (s t u : Bytes) → before t s ≡ false → before u t ≡ false → before u s ≡ false
upto_trans s t u h k = elim (Bool-cases (before s t)) [
  | inl e ↦ before-upto s t u e k
  | inr e ↦ let same = before_total s t e h in rw same k
]

pub All-insert_key {κ} :
    (P : Row → Type κ) (r : Row) (xs : List Row) → P r → All P xs → All P (insert_key r xs)
unfolding insert_key
All-insert_key P r [] p h = (p, tt)
All-insert_key P r (x ∷ xs) p (q, h) = ground (arith, All-insert_key P r xs p h)

pub All-order_keys {κ} : (P : Row → Type κ) (xs : List Row) → All P xs → All P (order_keys xs)
unfolding order_keys
All-order_keys P [] h = tt
All-order_keys P (x ∷ xs) (p, h) = All-insert_key P x (order_keys xs) p (All-order_keys P xs h)

insert_key-Sorted : (r : Row) (xs : List Row) → Pairs Upto xs → Pairs Upto (insert_key r xs)
unfolding insert_key
insert_key-Sorted r [] d = (tt, tt)
insert_key-Sorted r (x ∷ xs) (first, d) = elim (Bool-cases (before x.key r.key)) [
  | inl e ↦
      rw e
        (All-insert_key (Upto x) r xs (before_asym x.key r.key e) first, insert_key-Sorted r xs d)
  | inr e ↦ rw e ((e, All-map (λ y h. upto_trans r.key x.key y.key e h) xs first), (first, d))
]

pub order_keys-Sorted : (xs : List Row) → Pairs Upto (order_keys xs)
unfolding order_keys
order_keys-Sorted [] = tt
order_keys-Sorted (x ∷ xs) = insert_key-Sorted x (order_keys xs) (order_keys-Sorted xs)

-- A row that comes before all is inserted in front.
insert_key-front : (r : Row) (xs : List Row) → All (Upto r) xs → insert_key r xs ≡ r ∷ xs
unfolding insert_key
insert_key-front r [] h = refl
insert_key-front r (x ∷ xs) (e, h) = rw e refl

keep-insert_key :
    (p : Row → Bool) (r : Row) (xs : List Row)
    → Pairs Upto xs
    → keep p (insert_key r xs) ≡ (if p r then insert_key r (keep p xs) else keep p xs)
unfolding insert_key
keep-insert_key p r [] d = ground arith
keep-insert_key p r (x ∷ xs) (first, d) = elim (Bool-cases (before x.key r.key)) [
  | inl e ↦ ground (arith, keep-insert_key p r xs d)
  | inr e ↦
      let all = All-map (λ y h. upto_trans r.key x.key y.key e h) xs first in
      let front = insert_key-front r (keep p xs) (All-keep (Upto r) p xs all) in ground arith
]

-- Selecting rows before or after ordering them is the same.
pub keep-order_keys :
    (p : Row → Bool) (xs : List Row) → keep p (order_keys xs) ≡ order_keys (keep p xs)
unfolding order_keys
keep-order_keys p [] = refl
keep-order_keys p (x ∷ xs) =
    keep-insert_key p x (order_keys xs) (order_keys-Sorted xs)
    ∙ ground (arith, keep-order_keys p xs)
