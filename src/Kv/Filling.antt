-- ===== src/Kv/Filling.antt =====
-- The Map that the second loop of a bulk read fills.
use lopata.Common.{
  ◌≡◌, refl, ◌∙◌, sym, subst, false, some, List, [], ◌∷◌, All, text_eq, text_eq_iff, text_eq_refl,
  Result, ok, inv-bind, arith, Bool-cases, inl, inr,
}
use lopata.Kv.Keys.{Bytes}
use lopata.Kv.{Row, Error}
use lopata.Kv.Bulk.{map_get, map_set, entry, fill}

module _ {B : Type 0} where
  map_get-set_same :
      (key : Bytes) (v : B) (m : List (Bytes × B)) → map_get key (map_set key v m) ≡ some v
  unfolding map_get map_set
  map_get-set_same key v [] = rw (text_eq_refl key) refl
  map_get-set_same key v ((k, w) ∷ m) = ground (arith, map_get-set_same key v m)

  map_get-set_other :
      (key other : Bytes) (v : B) (m : List (Bytes × B))
      → text_eq key other ≡ false
      → map_get other (map_set key v m) ≡ map_get other m
  unfolding map_get map_set
  map_get-set_other key other v [] h = rw h refl
  map_get-set_other key other v ((k, w) ∷ m) h = elim (Bool-cases (text_eq k key)) [
    | inl e ↦
        let same : k ≡ key = (text_eq_iff k key).0 e in
        let no : text_eq k other ≡ false = subst (λ x. text_eq x other ≡ false) (sym same) h in
        ground arith
    | inr e ↦ ground (arith, map_get-set_other key other v m h)
  ]

module _ {B : Type 0} (found : Row → Result Error B) (missing : B) (row_map : List Row) where
  -- A Map whose entries are what the loop gives for their keys.
  abbrev pub Good : List (Bytes × B) → Type 0
  Good m = (key : Bytes) (v : B) → map_get key m ≡ some v → entry found missing row_map key ≡ ok v

  Good-set :
      (key : Bytes) (v : B) (m : List (Bytes × B))
      → entry found missing row_map key ≡ ok v
      → Good m
      → Good (map_set key v m)
  Good-set key v m e good other w h = elim (Bool-cases (text_eq key other)) [
    | inl s ↦
        let same : key ≡ other = (text_eq_iff key other).0 s in
        let here : map_get key (map_set key v m) ≡ some w =
          subst (λ k. map_get k (map_set key v m) ≡ some w) (sym same) h in
        let value : v ≡ w = ground (arith, map_get-set_same key v m) in
        subst (λ k. entry found missing row_map k ≡ ok w) same
          (subst (λ x. entry found missing row_map key ≡ ok x) value e)
    | inr s ↦ good other w (sym (map_get-set_other key other v m s) ∙ h)
  ]

  abbrev pub Has : List (Bytes × B) → Bytes → Type 0
  Has m key = (v : B) × (map_get key m ≡ some v)

  Has-set :
      (key other : Bytes) (v : B) (m : List (Bytes × B)) → Has m other → Has (map_set key v m) other
  Has-set key other v m (w, h) = elim (Bool-cases (text_eq key other)) [
    | inl s ↦ (
      v,
      subst (λ k. map_get k (map_set key v m) ≡ some v) ((text_eq_iff key other).0 s)
          (map_get-set_same key v m),
    )
    | inr s ↦ (w, map_get-set_other key other v m s ∙ h)
  ]

  pub fill-Good :
      (keys : List Bytes) (m out : List (Bytes × B))
      → fill found missing row_map keys m ≡ ok out
      → Good m
      → Good out × ((key : Bytes) → Has m key → Has out key) × All (Has out) keys
  unfolding fill
  fill-Good [] m out h good =
      let same : m ≡ out = ground arith in
      (subst Good same good, λ key has. subst (λ x. Has x key) same has, tt)
  fill-Good (key ∷ keys) m out h good =
      let (v, e, rest) = inv-bind (entry found missing row_map key) _ h in
      let (good', kept, all) =
        fill-Good keys (map_set key v m) out rest (Good-set key v m e good) in
      (
        good',
        λ k has. kept k (Has-set key k v m has),
        (kept key (v, map_get-set_same key v m), all),
      )
