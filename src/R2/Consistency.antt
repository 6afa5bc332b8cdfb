-- ===== src/R2/Consistency.antt =====
-- The table r2_objects and the files of src/bindings/r2.ts through a history of calls.
use lopata.Common.{
  ◌≡◌, refl, sym, ◌∙◌, subst, true, false, not, some, List, [], ◌∷◌, ◌++◌, keep, mem-keep,
  holds_of_keep, length, arith, Bool-cases, inl, inr, Text, codes, text_eq, text_eq_iff, and_iff,
  All,
}
use mathlib.Core.List.{Memᴰ}
use lopata.Kv.Keys.{Bytes}
use lopata.R2.{
  FilePath, Files, path_eq, is_under, read_file, rm_file, write_file, R2Checksums, R2Row, Store,
}
use lopata.R2.Paths.{file_path, path_eq_iff}
use lopata.R2.Objects.{FileR2Bucket, Runtime, is_object, store_bytes, delete_key, delete_keys}
use lopata.R2.Files.{read_file-write_file, read_file-write_file_other, read_file-rm_file}

abbrev pub multipart_root : FilePath → FilePath
multipart_root base_dir = base_dir ++ (codes "__multipart__" ∷ [])

pub is_under-append : (d e p : FilePath) → is_under (d ++ e) p ≡ true → is_under d p ≡ true
is_under-append [] e p h = refl
is_under-append (s ∷ d) e [] h = absurd (ground arith)
is_under-append (s ∷ d) e (t ∷ p) h =
    let (a, rest) = (and_iff (text_eq s t) (is_under (d ++ e) p)).0 h in
    (and_iff (text_eq s t) (is_under d p)).1 (a, is_under-append d e p rest)

module _ (r : Runtime) (b : FileR2Bucket) where
  -- A row of the bucket has its file, with the size and the digest that the row names.
  pub record Held (files : Files) (row : R2Row) : Type 0 where
    pub bytes : Bytes
    pub file : read_file (file_path b.base_dir row.key) files ≡ some bytes
    pub size : row.size ≡ length bytes
    pub digest : (c : R2Checksums) → row.checksums ≡ some c → c.md5 ≡ some (r.md5 bytes)

  Held-same :
      (files files' : Files) (row : R2Row)
      → read_file (file_path b.base_dir row.key) files'
        ≡ read_file (file_path b.base_dir row.key) files
      → Held files row
      → Held files' row
  Held-same files files' row e h = record {
    bytes = h.bytes;
    file = e ∙ h.file;
    size = h.size;
    digest = h.digest;
  }

  module _ (Allowed : Text → Type 0)
      (own : (k l : Text)
        → Allowed k
        → Allowed l
        → file_path b.base_dir k ≡ file_path b.base_dir l
        → k ≡ l)
      (outside : (k : Text)
        → Allowed k
        → is_under (multipart_root b.base_dir) (file_path b.base_dir k) ≡ false) where
    pub record Consistent (s : Store) : Type 0 where
      pub allowed : (row : R2Row) → Memᴰ row s.objects → row.bucket ≡ b.bucket → Allowed row.key
      pub held : (row : R2Row) → Memᴰ row s.objects → row.bucket ≡ b.bucket → Held s.files row

    -- Two keys have different files.
    paths-Apart :
        (k l : Text)
        → Allowed k
        → Allowed l
        → text_eq l k ≡ false
        → path_eq (file_path b.base_dir k) (file_path b.base_dir l) ≡ false
    paths-Apart k l ak al differ =
        elim (Bool-cases (path_eq (file_path b.base_dir k) (file_path b.base_dir l))) [
          | inr e ↦ e
          | inl e ↦ absurd (
              let same =
                own k l ak al
                  ((path_eq_iff (file_path b.base_dir k) (file_path b.base_dir l)).0 e) in
              let hit = (text_eq_iff l k).1 (sym same) in ground arith)
        ]

    -- What another key's row keeps where rows of a key are taken out.
    other_key :
        (key : Text) (row : R2Row)
        → row.bucket ≡ b.bucket
        → not (is_object b key row) ≡ true
        → text_eq row.key key ≡ false
    other_key key row e h = let bucket = (text_eq_iff row.bucket b.bucket).1 e in ground arith

    pub store_bytes-Consistent :
        (row : R2Row) (bytes : Bytes) (s : Store)
        → Allowed row.key
        → row.size ≡ length bytes
        → ((c : R2Checksums) → row.checksums ≡ some c → c.md5 ≡ some (r.md5 bytes))
        → Consistent s
        → Consistent (store_bytes b row bytes s)
    store_bytes-Consistent row bytes s ok_key size digest c = record {
      allowed = λ x m e. new_allowed x m e;
      held = λ x m e. new_held x m e;
    }
      where
        new_allowed :
            (x : R2Row)
            → Memᴰ x (row ∷ keep (λ o. not (is_object b row.key o)) s.objects)
            → x.bucket ≡ b.bucket
            → Allowed x.key
        new_allowed x (Memᴰ.head q) e = subst (λ y. Allowed y.key) (sym q) ok_key
        new_allowed x (Memᴰ.tail m) e =
            c.allowed x (mem-keep (λ o. not (is_object b row.key o)) s.objects x m) e

        new_held :
            (x : R2Row)
            → Memᴰ x (row ∷ keep (λ o. not (is_object b row.key o)) s.objects)
            → x.bucket ≡ b.bucket
            → Held (write_file (file_path b.base_dir row.key) bytes s.files) x
        new_held x (Memᴰ.head q) e =
            subst (λ y. Held (write_file (file_path b.base_dir row.key) bytes s.files) y) (sym q)
              (record {
                bytes = bytes;
                file = read_file-write_file (file_path b.base_dir row.key) bytes s.files;
                size = size;
                digest = digest;
              })
        new_held x (Memᴰ.tail m) e =
            let n = mem-keep (λ o. not (is_object b row.key o)) s.objects x m in
            let differ =
              other_key row.key x e
                (holds_of_keep (λ o. not (is_object b row.key o)) s.objects x m) in
            Held-same s.files (write_file (file_path b.base_dir row.key) bytes s.files) x
              (read_file-write_file_other (file_path b.base_dir row.key)
                (file_path b.base_dir x.key) bytes s.files
                (paths-Apart row.key x.key ok_key (c.allowed x n e) differ))
              (c.held x n e)

    delete_key-Consistent :
        (key : Text) (s : Store) → Allowed key → Consistent s → Consistent (delete_key b key s)
    delete_key-Consistent key s ok_key c = record {
      allowed = λ x m e. c.allowed x (mem-keep (λ o. not (is_object b key o)) s.objects x m) e;
      held = λ x m e.
          let n = mem-keep (λ o. not (is_object b key o)) s.objects x m in
          let differ =
            other_key key x e (holds_of_keep (λ o. not (is_object b key o)) s.objects x m) in
          Held-same s.files (rm_file (file_path b.base_dir key) s.files) x
            (read_file-rm_file (file_path b.base_dir key) (file_path b.base_dir x.key) s.files
              (paths-Apart key x.key ok_key (c.allowed x n e) differ))
            (c.held x n e);
    }

    pub delete_keys-Consistent :
        (keys : List Text) (s : Store)
        → All Allowed keys
        → Consistent s
        → Consistent (delete_keys b keys s)
    delete_keys-Consistent [] s a c = c
    delete_keys-Consistent (key ∷ keys) s (k, a) c =
        delete_keys-Consistent keys (delete_key b key s) a (delete_key-Consistent key s k c)

    -- Changes of files below the directory of the parts.
    pub parts-Consistent :
        (s s' : Store)
        → s'.objects ≡ s.objects
        → ((path : FilePath)
            → is_under (multipart_root b.base_dir) path ≡ false
            → read_file path s'.files ≡ read_file path s.files)
        → Consistent s
        → Consistent s'
    parts-Consistent s s' e same c = record {
      allowed = λ x m q. c.allowed x (subst (Memᴰ x) e m) q;
      held = λ x m q.
          let n = subst (Memᴰ x) e m in
          Held-same s.files s'.files x
            (same (file_path b.base_dir x.key) (outside x.key (c.allowed x n q))) (c.held x n q);
    }
