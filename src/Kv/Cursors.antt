-- ===== src/Kv/Cursors.antt =====
-- A cursor is the last key of the rows that were listed, and what follows it are the rows that were not.
use lopata.Common.{
  ℕ, zero, suc, ◌+◌, ◌≤◌, ◌≡◌, refl, ◌∙◌, sym, ap, Bool, true, false, List, [], ◌∷◌, arith, keep,
  take, drop, length, is_nil, All, All-take, Pairs, Text, text_eq, text_eq_iff, Bool-cases, inl,
  inr,
}
use lopata.Kv.Keys.{Bytes, before, before_irrefl, before_total, before_asym}
use lopata.Kv.{Row}
use lopata.Kv.Entries.{Distinct}
use lopata.Kv.Listing.{insert_key, order_keys, last_key, is_after}
use lopata.Kv.Sorting.{Upto, order_keys-Sorted, All-insert_key, All-order_keys}

abbrev pub Before : Row → Row → Type 0
Before r s = before r.key s.key ≡ true

abbrev Unlike : Row → Row → Type 0
Unlike r s = text_eq s.key r.key ≡ false

abbrev pub Named : Row → Type 0
Named r = is_nil r.key ≡ false

Unlike-symm : (r s : Row) → Unlike r s → Unlike s r
Unlike-symm r s h = elim (Bool-cases (text_eq r.key s.key)) [
  | inr e ↦ e
  | inl e ↦
      absurd (
        let same = (text_eq_iff s.key r.key).1 (sym ((text_eq_iff r.key s.key).0 e)) in
        ground arith)
]

insert_key-Unlike :
    (r : Row) (xs : List Row) → All (Unlike r) xs → Pairs Unlike xs → Pairs Unlike (insert_key r xs)
unfolding insert_key
insert_key-Unlike r [] h d = (tt, tt)
insert_key-Unlike r (x ∷ xs) (e, h) (first, d) =
    ground
      (arith, insert_key-Unlike r xs h d, All-insert_key (Unlike x) r xs (Unlike-symm r x e) first)

order_keys-Unlike : (xs : List Row) → Pairs Unlike xs → Pairs Unlike (order_keys xs)
unfolding order_keys
order_keys-Unlike [] h = tt
order_keys-Unlike (x ∷ xs) (first, h) =
    insert_key-Unlike x (order_keys xs) (All-order_keys (Unlike x) xs first)
      (order_keys-Unlike xs h)

All-Before : (r : Row) (xs : List Row) → All (Upto r) xs → All (Unlike r) xs → All (Before r) xs
All-Before r [] h k = tt
All-Before r (x ∷ xs) (e, h) (u, k) = (
  elim (Bool-cases (before r.key x.key)) [
    | inl b ↦ b
    | inr b ↦
        absurd
          (let same = (text_eq_iff x.key r.key).1 (before_total x.key r.key e b) in ground arith)
  ],
  All-Before r xs h k,
)

Pairs-Before : (xs : List Row) → Pairs Upto xs → Pairs Unlike xs → Pairs Before xs
Pairs-Before [] h k = tt
Pairs-Before (x ∷ xs) (a, h) (b, k) = (All-Before x xs a b, Pairs-Before xs h k)

-- Rows of one namespace in a table with a primary key have different keys.
Unlike-one :
    (ns : Text) (r : Row) (rs : List Row)
    → text_eq r.namespace ns ≡ true
    → All (λ s. text_eq s.namespace ns ≡ true) rs
    → All (Distinct r) rs
    → All (Unlike r) rs
Unlike-one ns r [] e h d = tt
Unlike-one ns r (s ∷ rs) e (f, h) (g, d) =
    let same : text_eq s.namespace r.namespace ≡ true =
      (text_eq_iff s.namespace r.namespace).1
        ((text_eq_iff s.namespace ns).0 f ∙ sym ((text_eq_iff r.namespace ns).0 e)) in
    (ground arith, Unlike-one ns r rs e h d)

Pairs-Unlike :
    (ns : Text) (rs : List Row)
    → All (λ s. text_eq s.namespace ns ≡ true) rs
    → Pairs Distinct rs
    → Pairs Unlike rs
Pairs-Unlike ns [] h d = tt
Pairs-Unlike ns (r ∷ rs) (e, h) (first, d) = (Unlike-one ns r rs e h first, Pairs-Unlike ns rs h d)

pub order_keys-Before :
    (ns : Text) (rs : List Row)
    → All (λ s. text_eq s.namespace ns ≡ true) rs
    → Pairs Distinct rs
    → Pairs Before (order_keys rs)
order_keys-Before ns rs h d =
    Pairs-Before (order_keys rs) (order_keys-Sorted rs)
      (order_keys-Unlike rs (Pairs-Unlike ns rs h d))

All-last_key :
    (P : Bytes → Type 0) (x : Row) (xs : List Row)
    → All (λ r. P r.key) (x ∷ xs)
    → P (last_key (x ∷ xs))
All-last_key P x [] (p, _) = p
All-last_key P x (y ∷ ys) (_, h) = All-last_key P y ys h

keep_later : (x : Row) (xs : List Row) → All (Before x) xs → keep (λ r. before x.key r.key) xs ≡ xs
keep_later x [] h = refl
keep_later x (y ∷ ys) (e, h) = rw e (ap (λ l. y ∷ l) (keep_later x ys h))

-- The rows after the last of the first n.
keep_after :
    (n : ℕ) (xs : List Row)
    → Pairs Before xs
    → suc n ≤ length xs
    → keep (λ r. before (last_key (take (suc n) xs)) r.key) xs ≡ drop (suc n) xs
keep_after n [] d h = refl
keep_after zero (x ∷ xs) (first, d) h = rw (before_irrefl x.key) (keep_later x xs first)
keep_after (suc n) (x ∷ []) (first, d) h = absurd (omega (arith, h))
keep_after (suc n) (x ∷ y ∷ ys) (first, d) h =
    let earlier : before x.key (last_key (take (suc n) (y ∷ ys))) ≡ true =
      All-last_key (λ k. before x.key k ≡ true) y (take n ys)
        (All-take (Before x) (suc n) (y ∷ ys) first) in
    rw (before_asym x.key (last_key (take (suc n) (y ∷ ys))) earlier)
      (keep_after n (y ∷ ys) d (omega (arith, h)))

-- The cursor after the first n rows.
abbrev pub cursor_at : ℕ → List Row → Bytes
cursor_at n xs = last_key (take n xs)

pub keep_cong : (p q : Row → Bool) (xs : List Row) → ((r : Row) → p r ≡ q r) → keep p xs ≡ keep q xs
keep_cong p q [] h = refl
keep_cong p q (x ∷ xs) h = rw (h x, keep_cong p q xs h) refl

keep_everything : (xs : List Row) → keep (is_after []) xs ≡ xs
keep_everything [] = refl
keep_everything (x ∷ xs) = ap (λ l. x ∷ l) (keep_everything xs)

is_after_lem : (c : Bytes) (r : Row) → is_nil c ≡ false → is_after c r ≡ before c r.key
is_after_lem [] r h = absurd (ground arith)
is_after_lem (a ∷ c) r h = refl

pub keep-is_after :
    (n : ℕ) (xs : List Row)
    → Pairs Before xs
    → All Named xs
    → n ≤ length xs
    → keep (is_after (cursor_at n xs)) xs ≡ drop n xs
keep-is_after zero xs d named h = keep_everything xs
keep-is_after (suc n) [] d named h = refl
keep-is_after (suc n) (x ∷ xs) d named h =
    let c = cursor_at (suc n) (x ∷ xs) in
    let known : is_nil c ≡ false =
      All-last_key (λ k. is_nil k ≡ false) x (take n xs) (All-take Named (suc n) (x ∷ xs) named) in
    keep_cong (is_after c) (λ r. before c r.key) (x ∷ xs) (λ r. is_after_lem c r known)
    ∙ keep_after n (x ∷ xs) d h

-- The last of a page is the cursor after all the rows so far.
pub last_key-take :
    (n m : ℕ) (xs : List Row)
    → suc n + m ≤ length xs
    → last_key (take (suc n) (drop m xs)) ≡ cursor_at (suc (m + n)) xs
last_key-take n zero xs h = let e : n ≡ 0 + n = omega arith in ap (λ k. cursor_at (suc k) xs) e
last_key-take n (suc m) [] h = absurd (omega (arith, h))
last_key-take n (suc m) (x ∷ []) h = absurd (omega (arith, h))
last_key-take n (suc m) (x ∷ y ∷ ys) h =
    let e : suc (m + n) ≡ suc m + n = omega arith in
    last_key-take n m (y ∷ ys) (omega (arith, h)) ∙ ap (λ k. cursor_at (suc k) (x ∷ y ∷ ys)) e
