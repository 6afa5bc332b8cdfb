-- ===== src/R2/Files.antt =====
-- What the files of src/bindings/r2.ts hold after they are written and removed.
use lopata.Common.{
  ◌≡◌, refl, sym, ap, ◌∙◌, subst, Bool, true, false, not, none, some, List, [], ◌∷◌, keep, find,
  arith, Bool-cases, inl, inr,
}
use lopata.Kv.Keys.{Bytes}
use lopata.R2.{
  FilePath, path_eq, is_under, Files, at_path, read_file, rm_file, write_file, rm_directory,
}
use lopata.R2.Paths.{path_eq_iff}

-- A search that meets only elements that a filter keeps.
pub find-keep :
    {A : Type 0} (p q : A → Bool) (xs : List A)
    → ((x : A) → p x ≡ true → q x ≡ true)
    → find p (keep q xs) ≡ find p xs
find-keep p q [] h = refl
find-keep p q (x ∷ xs) h =
    let rest = find-keep p q xs h in
    elim (Bool-cases (p x)) [
      | inl e ↦ let kept = h x e in rw (kept, e) refl
      | inr e ↦ elim (Bool-cases (q x)) [
        | inl k ↦ rw (k, e, rest) refl
        | inr k ↦ rw (k, e, rest) refl
      ]
    ]

pub read_file-write_file :
    (path : FilePath) (bytes : Bytes) (files : Files)
    → read_file path (write_file path bytes files) ≡ some bytes
read_file-write_file path bytes files =
    let same = (path_eq_iff path path).1 refl in rw (read_file, same) refl

at_path-other :
    (path other : FilePath) (file : FilePath × Bytes)
    → path_eq path other ≡ false
    → at_path other file ≡ true
    → not (at_path path file) ≡ true
at_path-other path other file apart here =
    let at = (path_eq_iff file.0 other).0 here in
    elim (Bool-cases (path_eq file.0 path)) [
      | inr e ↦ rw e refl
      | inl e ↦ absurd (
          let same = (path_eq_iff file.0 path).0 e in
          let clash = (path_eq_iff path other).1 (sym same ∙ at) in ground arith)
    ]

pub read_file-rm_file :
    (path other : FilePath) (files : Files)
    → path_eq path other ≡ false
    → read_file other (rm_file path files) ≡ read_file other files
read_file-rm_file path other files apart =
    ap (λ found. elim found [ none ↦ none | some file ↦ some file.1 ])
      (find-keep (at_path other) (λ file. not (at_path path file)) files
        (λ file here. at_path-other path other file apart here))

pub read_file-write_file_other :
    (path other : FilePath) (bytes : Bytes) (files : Files)
    → path_eq path other ≡ false
    → read_file other (write_file path bytes files) ≡ read_file other files
read_file-write_file_other path other bytes files apart =
    rw (read_file, apart) (read_file-rm_file path other files apart)

pub read_file-rm_directory :
    (directory other : FilePath) (files : Files)
    → is_under directory other ≡ false
    → read_file other (rm_directory directory files) ≡ read_file other files
read_file-rm_directory directory other files apart =
    ap (λ found. elim found [ none ↦ none | some file ↦ some file.1 ])
      (find-keep (at_path other) (λ file. not (is_under directory file.0)) files
        (λ file here.
          let at = (path_eq_iff file.0 other).0 here in
          subst (λ p. not (is_under directory p) ≡ true) (sym at) (ap not apart)))
