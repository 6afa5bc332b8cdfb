-- ===== src/Common/Strings.antt =====
-- JavaScript strings as lists of UTF-16 code units, with the methods that the source calls.
use Prim.Native.Nat.{ℕ, suc, ◌-◌}
use Prim.Native.Char.{code}
use Prim.Native.String.{String}
use mathlib.Core.Path.{◌≡◌, refl, ap}
use mathlib.Core.Logic.{◌↔◌, inl, inr}
use mathlib.Core.Bool.{Bool, true, false, ◌&&◌, ◌||◌}
use mathlib.Core.List.{List, [], ◌∷◌, ◌++◌}
use mathlib.Core.Option.{Option, none, some}
use native.Mathlib.Omega.{arith}
use lopata.Common.Tests.{◌==◌, leb, if◌then◌else◌, or_iff}
use lopata.Common.Lists.{length, take, drop, take-append, length-append}

abbrev pub Text : Type 0
Text = List ℕ

-- The code units of an ASCII literal.
abbrev pub codes : String → Text
codes String.[] = []
codes (String.◌∷◌ c s) = code c ∷ codes s

-- `===` on strings.
abbrev pub text_eq : Text → Text → Bool
text_eq [] [] = true
text_eq (a ∷ s) (b ∷ t) = (a == b) && text_eq s t
text_eq _ _ = false

pub text_eq_iff : (s t : Text) → (text_eq s t ≡ true) ↔ (s ≡ t)
text_eq_iff [] [] = ground arith
text_eq_iff [] (b ∷ t) = ground arith
text_eq_iff (a ∷ s) [] = ground arith
text_eq_iff (a ∷ s) (b ∷ t) = ground (arith, text_eq_iff s t)

pub text_eq_refl : (s : Text) → text_eq s s ≡ true
text_eq_refl s = (text_eq_iff s s).1 refl

-- `s.startsWith(prefix)`
abbrev pub starts_with : Text → Text → Bool
starts_with s [] = true
starts_with [] (b ∷ p) = false
starts_with (a ∷ s) (b ∷ p) = (a == b) && starts_with s p

-- `s.endsWith(suffix)`
abbrev pub ends_with : Text → Text → Bool
ends_with [] t = text_eq [] t
ends_with (a ∷ s) t = text_eq (a ∷ s) t || ends_with s t

-- `s.includes(c)` for a single code unit.
abbrev pub includes : Text → ℕ → Bool
includes [] c = false
includes (a ∷ s) c = (a == c) || includes s c

-- `s.indexOf(c)`, `none` for -1.
abbrev pub index_of : Text → ℕ → Option ℕ
index_of [] c = none
index_of (a ∷ s) c =
    if a == c then some 0 else elim (index_of s c) [ none ↦ none | some i ↦ some (suc i) ]

-- `s.slice(0, -n)`
abbrev pub drop_last : ℕ → Text → Text
drop_last n s = take (length s - n) s

-- `s.split(c)` for a single code unit: always at least one part.
abbrev pub split_on : ℕ → Text → List Text
split_on c [] = [] ∷ []
split_on c (a ∷ s) = elim (split_on c s) [
  | [] ↦ (a ∷ []) ∷ []
  | p ∷ ps ↦ if a == c then [] ∷ p ∷ ps else (a ∷ p) ∷ ps
]

-- The white space that `trim` and `\s` know.
abbrev pub is_space : ℕ → Bool
is_space c =
    (leb 9 c && leb c 13)
    || ((c == 32)
        || ((c == 160)
            || ((c == 0x1680)
                || ((leb 0x2000 c && leb c 0x200a)
                    || ((c == 0x2028)
                        || ((c == 0x2029)
                            || ((c == 0x202f)
                                || ((c == 0x205f) || ((c == 0x3000) || (c == 0xfeff))))))))))

-- `s.trimStart()`
abbrev pub trim_start : Text → Text
trim_start [] = []
trim_start (a ∷ s) = if is_space a then trim_start s else a ∷ s

abbrev pub all_space : Text → Bool
all_space [] = true
all_space (a ∷ s) = is_space a && all_space s

-- `s.trimEnd()`
abbrev pub trim_end : Text → Text
trim_end [] = []
trim_end (a ∷ s) = if all_space (a ∷ s) then [] else a ∷ trim_end s

-- `s.trim()`
abbrev pub trim : Text → Text
trim s = trim_end (trim_start s)

starts_with_sound : (s p : Text) → starts_with s p ≡ true → s ≡ p ++ drop (length p) s
starts_with_sound s [] h = refl
starts_with_sound [] (b ∷ p) h = cc
starts_with_sound (a ∷ s) (b ∷ p) h = ground (arith, starts_with_sound s p)

pub starts_with-append : (p r : Text) → starts_with (p ++ r) p ≡ true
starts_with-append [] r = refl
starts_with-append (b ∷ p) r = ground (arith, starts_with-append p r)

pub starts_with_iff : (s p : Text) → (starts_with s p ≡ true) ↔ ((r : Text) × (s ≡ p ++ r))
starts_with_iff s p =
    (λ h. (drop (length p) s, starts_with_sound s p h), λ (r, e). rw e (starts_with-append p r))

-- `endsWith` holds exactly of an extension to the left.
ends_with_sound : (s t : Text) → ends_with s t ≡ true → (p : Text) × (s ≡ p ++ t)
ends_with_sound [] t h = ([], (text_eq_iff [] t).0 h)
ends_with_sound (a ∷ s) t h = elim ((or_iff (text_eq (a ∷ s) t) (ends_with s t)).0 h) [
  | inl whole ↦ ([], (text_eq_iff (a ∷ s) t).0 whole)
  | inr later ↦ let (p, e) = ends_with_sound s t later in (a ∷ p, ap (λ l. a ∷ l) e)
]

ends_with_self : (t : Text) → ends_with t t ≡ true
ends_with_self [] = refl
ends_with_self (a ∷ t) = rw (text_eq_refl (a ∷ t))

pub ends_with-append : (p t : Text) → ends_with (p ++ t) t ≡ true
ends_with-append [] t = ends_with_self t
ends_with-append (a ∷ p) t =
    (or_iff (text_eq (a ∷ p ++ t) t) (ends_with (p ++ t) t)).1 (inr (ends_with-append p t))

pub ends_with_iff : (s t : Text) → (ends_with s t ≡ true) ↔ ((p : Text) × (s ≡ p ++ t))
ends_with_iff s t = (ends_with_sound s t, λ (p, e). rw e (ends_with-append p t))

pub drop_last-append : (p t : Text) → drop_last (length t) (p ++ t) ≡ p
drop_last-append p t =
    let e : length (p ++ t) - length t ≡ length p = omega (arith, length-append p t) in
    rw e (take-append p t)
