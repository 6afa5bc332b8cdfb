-- ===== src/R2/Pages.antt =====
-- A client that lists a bucket of src/bindings/r2.ts page by page.
use lopata.Common.{
  take-long, take-take, drop-drop, ℕ, zero, suc, ◌+◌, ◌≤◌, ◌<◌, ◌≡◌, refl, sym, ap, ◌∙◌, true,
  false, Option, none, some, List, [], ◌∷◌, ◌++◌, map, ltb, if◌then◌else◌, length, take, drop,
  length-take, length-drop, take-append-drop, arith, Bool-cases, Text, or_else, inl, inr,
}
use lopata.R2.{R2Row, Store, R2Object}
use lopata.R2.Objects.{FileR2Bucket}
use lopata.R2.Listing.{matching, build_list_object, R2Objects, list}

abbrev followed_by : R2Objects → Option (List R2Object) → Option (List R2Object)
followed_by page rest =
    if page.truncated
    then elim rest [ none ↦ none | some objects ↦ some (page.objects ++ objects) ]
    else some page.objects

-- Lists until no page is truncated, with the cursor of the page before.
abbrev pub list_all :
    (fuel : ℕ)
    → FileR2Bucket
    → (prefix : Text) (limit : ℕ) (cursor : Option ℕ) → Store
    → Option (List R2Object)
list_all zero b prefix limit cursor s = none
list_all (suc fuel) b prefix limit cursor s =
    let page =
      list b
        (record {
          prefix = some prefix;
          limit = some limit;
          cursor = cursor;
          delimiter = none;
          wanted = none;
        })
        s in
    followed_by page (list_all fuel b prefix limit page.cursor s)

map-append : {A B : Type 0} (f : A → B) (xs ys : List A) → map f xs ++ map f ys ≡ map f (xs ++ ys)
map-append f [] ys = refl
map-append f (x ∷ xs) ys = ap (λ l. f x ∷ l) (map-append f xs ys)

-- What one page holds, and where the next one starts.
page_of : List R2Row → (limit offset : ℕ) → R2Objects
page_of left limit offset = record {
  objects = map (build_list_object none) (take limit left);
  truncated = ltb limit (length (take (limit + 1) left));
  cursor = if ltb limit (length (take (limit + 1) left)) then some (offset + limit) else none;
  delimited_prefixes = [];
}

list-page :
    (b : FileR2Bucket) (prefix : Text) (limit : ℕ) (cursor : Option ℕ) (s : Store)
    → list b
        (record {
          prefix = some prefix;
          limit = some limit;
          cursor = cursor;
          delimiter = none;
          wanted = none;
        })
        s
      ≡ page_of (drop (or_else cursor 0) (matching b prefix s)) limit (or_else cursor 0)
unfolding list page_of
list-page b prefix limit cursor s =
    let same =
      take-take limit (limit + 1) (drop (or_else cursor 0) (matching b prefix s)) (omega arith) in
    rw (list, same) refl

followed_by-last :
    (left : List R2Row) (limit offset : ℕ) (rest : Option (List R2Object))
    → length left ≤ limit
    → followed_by (page_of left limit offset) rest ≡ some (map (build_list_object none) left)
unfolding page_of
followed_by-last left limit offset rest short =
    let size = length-take (limit + 1) left in
    let e : ltb limit (length (take (limit + 1) left)) ≡ false = ground arith in
    let whole = take-long limit left short in rw (followed_by, e, whole) refl

followed_by-more :
    (left : List R2Row) (limit offset : ℕ)
    → limit < length left
    → (page_of left limit offset).cursor ≡ some (offset + limit)
      × (followed_by
            (page_of left limit offset)
            (some (map (build_list_object none) (drop limit left)))
          ≡ some (map (build_list_object none) left))
unfolding page_of
followed_by-more left limit offset long =
    let size = length-take (limit + 1) left in
    let e : ltb limit (length (take (limit + 1) left)) ≡ true = ground arith in
    (
      rw e refl,
      rw (followed_by, e)
          (ap some (
            map-append (build_list_object none) (take limit left) (drop limit left)
            ∙ ap (map (build_list_object none)) (take-append-drop limit left))),
    )

list_all-from :
    (fuel : ℕ) (b : FileR2Bucket) (prefix : Text) (limit : ℕ) (cursor : Option ℕ) (s : Store)
    → 0 < limit
    → length (drop (or_else cursor 0) (matching b prefix s)) < fuel
    → list_all fuel b prefix limit cursor s
      ≡ some (map (build_list_object none) (drop (or_else cursor 0) (matching b prefix s)))
list_all-from zero b prefix limit cursor s pos enough = absurd (omega (arith, enough))
list_all-from (suc fuel) b prefix limit cursor s pos enough =
    let offset = or_else cursor 0 in
    let left = drop offset (matching b prefix s) in
    let first =
      ap (λ p. followed_by p (list_all fuel b prefix limit p.cursor s))
        (list-page b prefix limit cursor s) in
    elim (Bool-cases (ltb limit (length left))) [
      | inr e ↦
          first
          ∙ followed_by-last left limit offset
              (list_all fuel b prefix limit (page_of left limit offset).cursor s) (ground arith)
      | inl e ↦
          let long : limit < length left = ground arith in
          let next = sym (drop-drop offset limit (matching b prefix s)) in
          let size = length-drop limit left in
          let (cursor_next, joined) = followed_by-more left limit offset long in
          let ih =
            list_all-from fuel b prefix limit (some (offset + limit)) s pos
              (rw next (omega (arith, size, enough, pos, long))) in
          first
          ∙ ap (λ c. followed_by (page_of left limit offset) (list_all fuel b prefix limit c s))
              cursor_next
          ∙ ap (followed_by (page_of left limit offset))
              (ih ∙ ap (λ l. some (map (build_list_object none) l)) next)
          ∙ joined
    ]

-- A client that lists a bucket page by page, with any limit but 0 and no delimiter, while nothing changes,
-- ends within as many pages as there are matching rows, and one, and has got exactly the objects of the
-- rows that the SELECT of `list` gives without its LIMIT and OFFSET, in its order.
pub list_all-matching :
    (b : FileR2Bucket) (prefix : Text) (limit : ℕ) (s : Store)
    → 0 < limit
    → list_all (suc (length (matching b prefix s))) b prefix limit none s
      ≡ some (map (build_list_object none) (matching b prefix s))
list_all-matching b prefix limit s pos =
    list_all-from (suc (length (matching b prefix s))) b prefix limit none s pos (omega arith)
