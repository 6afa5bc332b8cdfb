-- ===== src/R2/Paths.antt =====
-- Where src/bindings/r2.ts keeps files: `join` of node:path, and the path of a part.
use lopata.Common.{
  ℕ, zero, suc, ◌+◌, ◌*◌, ◌-◌, ◌/◌, ◌%◌, ◌≡◌, refl, sym, ap, ◌∙◌, true, false, ◌||◌, ◌↔◌, ◌≢◌,
  text_eq_iff, and_iff, inl, inr, List, [], ◌∷◌, ◌++◌, ltb, if◌then◌else◌, length, take, arith,
  Text, codes, text_eq, split_on, Bool-cases,
}
use lopata.R2.{FilePath, path_eq}

abbrev pub enter : FilePath → Text → FilePath
enter path segment =
    if text_eq segment [] || text_eq segment (codes ".")
    then path
    else if text_eq segment (codes "..")
    then take (length path - 1) path
    else path ++ (segment ∷ [])

abbrev pub walk : FilePath → List Text → FilePath
walk path [] = path
walk path (segment ∷ segments) = walk (enter path segment) segments

unfoldable pub file_path : (base_dir : FilePath) (key : Text) → FilePath
file_path base_dir key = walk base_dir (split_on b'/' key)

abbrev decimal_from : (fuel n : ℕ) → Text
decimal_from zero n = []
decimal_from (suc fuel) n =
    let rest = decimal_from fuel (n / 10) in
    if ltb n 10 then (48 + n) ∷ [] else rest ++ ((48 + n % 10) ∷ [])

-- `String(n)`: a number has fewer digits than n + 1.
unfoldable pub decimal : ℕ → Text
decimal n = decimal_from (suc n) n

unfoldable pub part_dir : FilePath → Text → FilePath
part_dir base_dir upload_id = walk base_dir (codes "__multipart__" ∷ split_on b'/' upload_id)

unfoldable pub part_path : FilePath → Text → ℕ → FilePath
unfolding decimal part_dir
part_path base_dir upload_id part_number =
    part_dir base_dir upload_id ++ ((codes "part-" ++ decimal part_number) ∷ [])

-- Reading a number back.
value : ℕ → Text → ℕ
value n [] = n
value n (c ∷ s) = value (10 * n + (c - 48)) s

value-append : (n : ℕ) (s : Text) (c : ℕ) → value n (s ++ (c ∷ [])) ≡ 10 * value n s + (c - 48)
unfolding value
value-append n [] c = refl
value-append n (d ∷ s) c = value-append (10 * n + (d - 48)) s c

value-decimal_from : (fuel n : ℕ) → ltb n fuel ≡ true → value 0 (decimal_from fuel n) ≡ n
unfolding value
value-decimal_from zero n h = absurd (ground arith)
value-decimal_from (suc fuel) n h = elim (Bool-cases (ltb n 10)) [
  | inl small ↦ rw small (omega arith)
  | inr large ↦
      let ih = value-decimal_from fuel (n / 10) (ground arith) in
      rw (large, value-append 0 (decimal_from fuel (n / 10)) (48 + n % 10), ih) (omega arith)
]

decimal-injective : (m n : ℕ) → decimal m ≡ decimal n → m ≡ n
unfolding decimal
decimal-injective m n e =
    sym (value-decimal_from (suc m) m (ground arith))
    ∙ ap (value 0) e
    ∙ value-decimal_from (suc n) n (ground arith)

pub path_eq_iff : (p q : FilePath) → (path_eq p q ≡ true) ↔ (p ≡ q)
path_eq_iff [] [] = ground arith
path_eq_iff [] (t ∷ q) = ground arith
path_eq_iff (s ∷ p) [] = ground arith
path_eq_iff (s ∷ p) (t ∷ q) = (
  λ h.
      let (e, f) = (and_iff (text_eq s t) (path_eq p q)).0 h in
      let same = (text_eq_iff s t).0 e in let rest = (path_eq_iff p q).0 f in cc,
  λ h. (and_iff (text_eq s t) (path_eq p q)).1 (
    (text_eq_iff s t).1 (let x : s ≡ t = ground arith in x),
    (path_eq_iff p q).1 (let x : p ≡ q = ground arith in x),
  ),
)

cancel_left : {A : Type 0} (xs ys zs : List A) → xs ++ ys ≡ xs ++ zs → ys ≡ zs
cancel_left [] ys zs e = e
cancel_left (x ∷ xs) ys zs e = cancel_left xs ys zs (ground arith)

-- The parts of an upload have files of their own.
pub part_path-Apart :
    (base_dir : FilePath) (upload_id : Text) (m n : ℕ)
    → m ≢ n
    → path_eq (part_path base_dir upload_id m) (part_path base_dir upload_id n) ≡ false
unfolding part_path
part_path-Apart base_dir upload_id m n apart =
    elim (Bool-cases (path_eq (part_path base_dir upload_id m) (part_path base_dir upload_id n))) [
      | inr e ↦ e
      | inl e ↦ absurd (
          let same =
            cancel_left (part_dir base_dir upload_id) ((codes "part-" ++ decimal m) ∷ [])
              ((codes "part-" ++ decimal n) ∷ [])
              ((path_eq_iff (part_path base_dir upload_id m) (part_path base_dir upload_id n)).0
                e) in
          let name : (codes "part-" ++ decimal m) ≡ (codes "part-" ++ decimal n) = ground arith in
          apart (decimal-injective m n (cancel_left (codes "part-") (decimal m) (decimal n) name)))
    ]
