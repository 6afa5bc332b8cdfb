-- ===== src/R2/Elsewhere.antt =====
-- Paths outside the directory in which src/bindings/r2.ts keeps the parts of uploads.
use lopata.Common.{
  ℕ, ◌≡◌, ◌∙◌, refl, sym, subst, true, false, [], ◌∷◌, ◌++◌, append_assoc, arith, Bool-cases, inl,
  inr, Text, codes, text_eq, text_eq_iff, and_iff,
}
use lopata.R2.{FilePath, path_eq, is_under}
use lopata.R2.Paths.{part_dir, part_path, decimal, path_eq_iff}
use lopata.R2.Consistency.{multipart_root, is_under-append}

-- The identity of an upload is one segment of a path, as a UUID is.
abbrev pub HasOwnDirectory : FilePath → Text → Type 0
HasOwnDirectory base_dir u = part_dir base_dir u ≡ base_dir ++ (codes "__multipart__" ∷ u ∷ [])

is_under-part_path :
    (base rest : FilePath) (m uid : Text)
    → is_under (base ++ (m ∷ [])) ((base ++ (m ∷ uid ∷ [])) ++ rest) ≡ true
is_under-part_path [] rest m uid = let same = (text_eq_iff m m).1 refl in ground arith
is_under-part_path (s ∷ base) rest m uid =
    let same = (text_eq_iff s s).1 refl in
    let ih = is_under-part_path base rest m uid in
    (and_iff (text_eq s s) (is_under (base ++ (m ∷ [])) ((base ++ (m ∷ uid ∷ [])) ++ rest))).1
      (same, ih)

pub part_path-elsewhere :
    (base_dir : FilePath) (u : Text) (n : ℕ) (path : FilePath)
    → HasOwnDirectory base_dir u
    → is_under (multipart_root base_dir) path ≡ false
    → path_eq (part_path base_dir u n) path ≡ false
unfolding part_path
part_path-elsewhere base_dir u n path d h =
    elim (Bool-cases (path_eq (part_path base_dir u n) path)) [
      | inr e ↦ e
      | inl e ↦ absurd (
          let same = (path_eq_iff (part_path base_dir u n) path).0 e in
          let under =
            subst (λ p. is_under (multipart_root base_dir) p ≡ true) same
              (subst
                (λ q.
                  is_under (multipart_root base_dir) (q ++ ((codes "part-" ++ decimal n) ∷ []))
                  ≡ true)
                (sym d)
                (is_under-part_path base_dir ((codes "part-" ++ decimal n) ∷ [])
                  (codes "__multipart__") u)) in
          ground arith)
    ]

pub part_dir-elsewhere :
    (base_dir : FilePath) (u : Text) (path : FilePath)
    → HasOwnDirectory base_dir u
    → is_under (multipart_root base_dir) path ≡ false
    → is_under (part_dir base_dir u) path ≡ false
part_dir-elsewhere base_dir u path d h = elim (Bool-cases (is_under (part_dir base_dir u) path)) [
  | inr e ↦ e
  | inl e ↦ absurd (
      let under = is_under-append (multipart_root base_dir) (u ∷ []) path (
        subst (λ q. is_under q path ≡ true)
          (d ∙ sym (append_assoc base_dir (codes "__multipart__" ∷ []) (u ∷ []))) e) in
      ground arith)
]
