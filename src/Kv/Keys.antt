-- ===== src/Kv/Keys.antt =====
-- Strings in UTF-8 and the order of SQLite's BINARY collation, which src/bindings/kv.ts relies on.
use lopata.Common.{
  ℕ, suc, ◌+◌, ◌*◌, ◌-◌, ◌/◌, ◌%◌, ◌≡◌, refl, Bool, true, false, not, ◌&&◌, ◌||◌, Option, none,
  some, List, [], ◌∷◌, ◌++◌, arith, ltb, leb, ◌==◌, if◌then◌else◌, Text, starts_with, append_assoc,
  append-nil, sym,
}

abbrev pub Bytes : Type 0
Bytes = List ℕ

abbrev is_high : ℕ → Bool
is_high c = leb 0xd800 c && ltb c 0xdc00

abbrev is_low : ℕ → Bool
is_low c = leb 0xdc00 c && ltb c 0xe000

point : ℕ → Bytes
point c =
    if ltb c 0x80
    then c ∷ []
    else if ltb c 0x800
    then (0xc0 + c / 64) ∷ (0x80 + c % 64) ∷ []
    else if ltb c 0x10000
    then (0xe0 + c / 4096) ∷ (0x80 + (c / 64) % 64) ∷ (0x80 + c % 64) ∷ []
    else (0xf0 + c / 262144)
      ∷ (0x80 + (c / 4096) % 64)
      ∷ (0x80 + (c / 64) % 64)
      ∷ (0x80 + c % 64)
      ∷ []

-- U+FFFD, which stands for a surrogate without its partner.
abbrev replacement : Bytes
replacement = 0xef ∷ 0xbf ∷ 0xbd ∷ []

-- What a unit adds when no high surrogate waits for it; a high surrogate waits for the next unit.
single : ℕ → Bytes
unfolding point
single c = if is_high c then [] else if is_low c then replacement else point c

emit : Option ℕ → ℕ → Bytes
unfolding single point
emit none c = single c
emit (some high) c =
    if is_low c
    then point (0x10000 + (high - 0xd800) * 1024 + (c - 0xdc00))
    else replacement ++ single c

encode_from : Option ℕ → Text → Bytes
unfolding emit
encode_from none [] = []
encode_from (some high) [] = replacement
encode_from waiting (c ∷ s) = emit waiting c ++ encode_from (if is_high c then some c else none) s

-- `new TextEncoder().encode(s)`
unfoldable pub utf8 : Text → Bytes
unfolding encode_from
utf8 s = encode_from none s

-- The order of byte strings.
unfoldable pub before : Bytes → Bytes → Bool
before [] [] = false
before [] (b ∷ t) = true
before (a ∷ s) [] = false
before (a ∷ s) (b ∷ t) = let later = before s t in ltb a b || ((a == b) && later)

emit-ascii :
    (waiting : Option ℕ) (c : ℕ)
    → ltb c 0x80 ≡ true
    → emit waiting c ≡ encode_from waiting [] ++ (c ∷ [])
unfolding emit encode_from single point
emit-ascii none c h = ground arith
emit-ascii (some high) c h = ground arith

encode_from-one :
    (waiting : Option ℕ) (c : ℕ) (s : Text)
    → encode_from waiting (c ∷ s)
      ≡ emit waiting c ++ encode_from (if is_high c then some c else none) s
unfolding encode_from
encode_from-one none c s = refl
encode_from-one (some high) c s = refl

encode_from-snoc :
    (waiting : Option ℕ) (s : Text) (c : ℕ)
    → ltb c 0x80 ≡ true
    → encode_from waiting (s ++ (c ∷ [])) ≡ encode_from waiting s ++ (c ∷ [])
unfolding encode_from
encode_from-snoc waiting [] c h =
    let low : is_high c ≡ false = ground arith in
    let last : encode_from (if is_high c then some c else none) [] ≡ [] = rw low refl in
    rw (encode_from-one waiting c [], last, append-nil (emit waiting c)) (emit-ascii waiting c h)
encode_from-snoc waiting (a ∷ s) c h =
    let rest = if is_high a then some a else none in
    rw
      (
        encode_from-one waiting a (s ++ (c ∷ [])),
        encode_from-one waiting a s,
        encode_from-snoc rest s c h,
      )
      (sym (append_assoc (emit waiting a) (encode_from rest s) (c ∷ [])))

-- An ASCII character stands for itself at the end of a string.
pub utf8-snoc : (s : Text) (c : ℕ) → ltb c 0x80 ≡ true → utf8 (s ++ (c ∷ [])) ≡ utf8 s ++ (c ∷ [])
unfolding utf8
utf8-snoc s c h = encode_from-snoc none s c h

pub before_irrefl : (s : Bytes) → before s s ≡ false
unfolding before
before_irrefl [] = refl
before_irrefl (a ∷ s) = ground (arith, before_irrefl s)

pub before_trans : (s t u : Bytes) → before s t ≡ true → before t u ≡ true → before s u ≡ true
unfolding before
before_trans [] [] u h k = cc
before_trans [] (b ∷ t) [] h k = cc
before_trans [] (b ∷ t) (c ∷ u) h k = refl
before_trans (a ∷ s) [] u h k = cc
before_trans (a ∷ s) (b ∷ t) [] h k = cc
before_trans (a ∷ s) (b ∷ t) (c ∷ u) h k = ground (arith, before_trans s t u)

pub before_total : (s t : Bytes) → before s t ≡ false → before t s ≡ false → s ≡ t
unfolding before
before_total [] [] h k = refl
before_total [] (b ∷ t) h k = cc
before_total (a ∷ s) [] h k = cc
before_total (a ∷ s) (b ∷ t) h k = ground (arith, before_total s t)

pub before_asym : (s t : Bytes) → before s t ≡ true → before t s ≡ false
unfolding before
before_asym [] [] h = cc
before_asym [] (b ∷ t) h = refl
before_asym (a ∷ s) [] h = cc
before_asym (a ∷ s) (b ∷ t) h = ground (arith, before_asym s t)

-- The byte strings from one prefix to the next are those that start with it.
pub before-range :
    (s : Bytes) (c : ℕ) (k : Bytes)
    → (not (before k (s ++ (c ∷ []))) && before k (s ++ (suc c ∷ [])))
      ≡ starts_with k (s ++ (c ∷ []))
unfolding before
before-range [] c [] = refl
before-range [] c (a ∷ []) = ground arith
before-range [] c (a ∷ b ∷ k) = ground arith
before-range (b ∷ s) c [] = refl
before-range (b ∷ s) c (a ∷ k) = ground (arith, before-range s c k)
