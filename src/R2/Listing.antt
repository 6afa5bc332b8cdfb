-- ===== src/R2/Listing.antt =====
-- `list` and `listMultipartUploads` of src/bindings/r2.ts. A cursor is the number that it is printed from.
use lopata.Common.{
  ℕ, suc, ◌+◌, Bool, true, false, ◌&&◌, Option, none, some, List, [], ◌∷◌, ◌++◌, map, any, keep,
  ltb, leb, ◌==◌, if◌then◌else◌, length, take, drop, is_nil, Text, codes, text_eq, starts_with,
  or_else,
}
use lopata.Kv.Keys.{utf8, before}
use lopata.R2.{no_http_metadata, R2Row, MultipartRow, Store, R2Object, row_to_meta}
use lopata.R2.Objects.{FileR2Bucket}

-- SQLite's LIKE: letters from A to Z in either case, `_` for one character, `%` for any number.
abbrev pub fold_case : ℕ → ℕ
fold_case c = if leb 65 c && leb c 90 then c + 32 else c

abbrev pub suffixes : Text → List Text
suffixes [] = [] ∷ []
suffixes (c ∷ s) = (c ∷ s) ∷ suffixes s

abbrev is_pair : ℕ → ℕ → Bool
is_pair c d = leb 0xd800 c && ltb c 0xdc00 && leb 0xdc00 d && ltb d 0xe000

abbrev after_character : Text → Option Text
after_character [] = none
after_character (c ∷ []) = some []
after_character (c ∷ d ∷ s) = if is_pair c d then some s else some (d ∷ s)

abbrev same_first : ℕ → Text → Option Text
same_first p [] = none
same_first p (c ∷ s) = if fold_case p == fold_case c then some s else none

unfoldable pub like : (pattern : Text) → Text → Bool
like [] s = is_nil s
like (p ∷ pattern) s =
    let rest = like pattern in
    if p == b'%'
    then any rest (suffixes s)
    else elim (if p == b'_' then after_character s else same_first p s) [
      | none ↦ false
      | some t ↦ rest t
    ]

-- `ORDER BY key`, in the order of SQLite's BINARY collation.
abbrev pub insert_row : R2Row → List R2Row → List R2Row
insert_row x [] = x ∷ []
insert_row x (y ∷ ys) =
    let later = insert_row x ys in
    if before (utf8 x.key) (utf8 y.key) then x ∷ y ∷ ys else y ∷ later

abbrev pub sort_rows : List R2Row → List R2Row
sort_rows [] = []
sort_rows (x ∷ xs) = insert_row x (sort_rows xs)

abbrev pub is_listed_row : FileR2Bucket → (prefix : Text) → R2Row → Bool
is_listed_row b prefix row = text_eq row.bucket b.bucket && like (prefix ++ codes "%") row.key

unfoldable pub matching : FileR2Bucket → (prefix : Text) → Store → List R2Row
unfolding like
matching b prefix s = sort_rows (keep (is_listed_row b prefix) s.objects)

-- The SELECT with its LIMIT and OFFSET.
abbrev pub select_rows : FileR2Bucket → Text → (limit offset : ℕ) → Store → List R2Row
select_rows b prefix limit offset s = take limit (drop offset (matching b prefix s))

pub data Include : Type 0 where
  include_http_metadata include_custom_metadata : Include

abbrev is_include : Include → Include → Bool
is_include include_http_metadata include_http_metadata = true
is_include include_custom_metadata include_custom_metadata = true
is_include _ _ = false

abbrev pub build_list_object : Option (List Include) → R2Row → R2Object
build_list_object none row = row_to_meta row
build_list_object (some wanted) row =
    let meta = row_to_meta row in
    record meta {
      http_metadata =
          if any (is_include include_http_metadata) wanted
          then meta.http_metadata
          else no_http_metadata;
      custom_metadata =
          if any (is_include include_custom_metadata) wanted then meta.custom_metadata else [];
    }

pub record R2ListOptions : Type 0 where
  pub prefix : Option Text
  pub limit : Option ℕ
  pub cursor : Option ℕ
  pub delimiter : Option Text
  pub wanted : Option (List Include)

pub record R2Objects : Type 0 where
  pub objects : List R2Object
  pub truncated : Bool
  pub cursor : Option ℕ
  pub delimited_prefixes : List Text

-- `rest.indexOf(delimiter)`
abbrev pub index_of_text : Text → Text → Option ℕ
index_of_text [] delimiter = if is_nil delimiter then some 0 else none
index_of_text (c ∷ s) delimiter =
    let later = index_of_text s delimiter in
    if starts_with (c ∷ s) delimiter
    then some 0
    else elim later [ none ↦ none | some i ↦ some (suc i) ]

-- The group of a key: the prefix and what follows it, up to and including the delimiter.
abbrev pub group_of : (prefix delimiter key : Text) → Option Text
group_of prefix delimiter key =
    let rest = drop (length prefix) key in
    elim (index_of_text rest delimiter) [
      | none ↦ none
      | some i ↦ some (prefix ++ take (i + length delimiter) rest)
    ]

abbrev insert_text : Text → List Text → List Text
insert_text x [] = x ∷ []
insert_text x (y ∷ ys) =
    let later = insert_text x ys in
    if text_eq x y then y ∷ ys else if before x y then x ∷ y ∷ ys else y ∷ later

-- The prefixes as a sorted set.
abbrev pub groups : (prefix delimiter : Text) → List R2Row → List Text
groups prefix delimiter [] = []
groups prefix delimiter (row ∷ rows) =
    let rest = groups prefix delimiter rows in
    elim (group_of prefix delimiter row.key) [ none ↦ rest | some group ↦ insert_text group rest ]

abbrev pub is_ungrouped : (prefix delimiter : Text) → R2Row → Bool
is_ungrouped prefix delimiter row = elim (group_of prefix delimiter row.key) [
  | none ↦ true
  | some group ↦ false
]

-- An empty delimiter is falsy.
abbrev pub delimiter_of : Option Text → Option Text
delimiter_of none = none
delimiter_of (some []) = none
delimiter_of (some (c ∷ s)) = some (c ∷ s)

unfoldable pub list : FileR2Bucket → R2ListOptions → Store → R2Objects
unfolding matching row_to_meta
list b options s =
    let prefix = or_else options.prefix [] in
    let limit = or_else options.limit 1000 in
    let offset = or_else options.cursor 0 in
    let rows = select_rows b prefix (limit + 1) offset s in
    let truncated = ltb limit (length rows) in
    let page = take limit rows in
    let cursor = if truncated then some (offset + limit) else none in
    elim (delimiter_of options.delimiter) [
      | some delimiter ↦ record {
        objects =
            map (build_list_object options.wanted) (keep (is_ungrouped prefix delimiter) page);
        truncated = truncated;
        cursor = cursor;
        delimited_prefixes = groups prefix delimiter page;
      }
      | none ↦ record {
        objects = map (build_list_object options.wanted) page;
        truncated = truncated;
        cursor = cursor;
        delimited_prefixes = [];
      }
    ]

abbrev insert_upload : MultipartRow → List MultipartRow → List MultipartRow
insert_upload x [] = x ∷ []
insert_upload x (y ∷ ys) =
    let later = insert_upload x ys in
    if before (utf8 x.key) (utf8 y.key) then x ∷ y ∷ ys else y ∷ later

abbrev sort_uploads : List MultipartRow → List MultipartRow
sort_uploads [] = []
sort_uploads (x ∷ xs) = insert_upload x (sort_uploads xs)

-- Without a prefix, or with an empty one, every upload is listed.
abbrev has_prefix : Option Text → Text → Bool
has_prefix none key = true
has_prefix (some []) key = true
has_prefix (some (c ∷ prefix)) key = like ((c ∷ prefix) ++ codes "%") key

unfoldable pub list_multipart_uploads :
    FileR2Bucket → (prefix : Option Text) → Store → List MultipartRow
unfolding like
list_multipart_uploads b prefix s =
    sort_uploads (keep (λ u. text_eq u.bucket b.bucket && has_prefix prefix u.key) s.uploads)
