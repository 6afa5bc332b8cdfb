-- ===== src/Kv/Ranges.antt =====
-- The range query of a listing finds the keys that start with the prefix.
use lopata.Common.{
  ℕ, suc, ◌+◌, ◌%◌, ◌≡◌, refl, ◌∙◌, Bool, true, false, not, ◌&&◌, [], ◌∷◌, ◌++◌, arith, ltb, is_nil,
  Text, text_eq, starts_with, drop_last, drop_last-append,
}
use lopata.Kv.Keys.{utf8, utf8-snoc, before, before-range}
use lopata.Kv.{Row}
use lopata.Kv.Listing.{is_past, last_code, prefix_end, in_range}

-- A prefix that is empty or ends in an ASCII character below DEL.
pub data Plain : Text → Type 0 where
  empty : Plain []
  ascii : (s : Text) (c : ℕ) (small : ltb c 0x7f ≡ true) → Plain (s ++ (c ∷ []))

-- What a listing is about: the rows of the namespace that have not expired and whose keys start with
-- the prefix.
abbrev pub is_listed : Text → ℕ → Text → Row → Bool
is_listed ns now prefix r =
    not (is_past ns now r) && (text_eq r.namespace ns && starts_with r.key (utf8 prefix))

last_code-snoc : (s : Text) (c : ℕ) → last_code (s ++ (c ∷ [])) ≡ c
last_code-snoc [] c = refl
last_code-snoc (a ∷ []) c = refl
last_code-snoc (a ∷ b ∷ s) c = last_code-snoc (b ∷ s) c

small_mod : (c : ℕ) → ltb c 0x7f ≡ true → (c + 1) % 65536 ≡ suc c
small_mod c h = ground arith

prefix_end_lem :
    (l : Text) → is_nil l ≡ false → prefix_end l ≡ drop_last 1 l ++ ((last_code l + 1) % 65536 ∷ [])
prefix_end_lem [] h = absurd (ground arith)
prefix_end_lem (a ∷ l) h = refl

snoc-is_nil : (s : Text) (c : ℕ) → is_nil (s ++ (c ∷ [])) ≡ false
snoc-is_nil [] c = refl
snoc-is_nil (a ∷ s) c = refl

prefix_end-snoc :
    (s : Text) (c : ℕ) → ltb c 0x7f ≡ true → prefix_end (s ++ (c ∷ [])) ≡ s ++ (suc c ∷ [])
prefix_end-snoc s c h =
    let cut : drop_last 1 (s ++ (c ∷ [])) ≡ s = drop_last-append s (c ∷ []) in
    prefix_end_lem (s ++ (c ∷ [])) (snoc-is_nil s c)
    ∙ rw (cut, last_code-snoc s c, small_mod c h) refl

in_range_lem :
    (l : Text) (r : Row)
    → is_nil l ≡ false
    → in_range l r ≡ (not (before r.key (utf8 l)) && before r.key (utf8 (prefix_end l)))
in_range_lem [] r h = absurd (ground arith)
in_range_lem (a ∷ l) r h = refl

ascii_below : (c : ℕ) → ltb c 0x7f ≡ true → (ltb c 0x80 ≡ true) × (ltb (suc c) 0x80 ≡ true)
ascii_below c h = ground arith

-- For such a prefix the range is the keys that start with it, in bytes.
pub in_range-starts :
    (prefix : Text) (r : Row) → Plain prefix → in_range prefix r ≡ starts_with r.key (utf8 prefix)
unfolding utf8
in_range-starts prefix r empty = refl
in_range-starts prefix r (ascii s c small) =
    let (this, next) = ascii_below c small in
    in_range_lem (s ++ (c ∷ [])) r (snoc-is_nil s c)
    ∙ rw (prefix_end-snoc s c small, utf8-snoc s c this, utf8-snoc s (suc c) next)
        (before-range (utf8 s) c r.key)
