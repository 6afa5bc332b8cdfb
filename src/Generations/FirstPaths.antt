-- ===== src/Generations/FirstPaths.antt =====
-- The paths for which src/generation.ts lets the worker run before its assets.
use lopata.Common.{
  ◌≡◌, ◌↔◌, sym, ap, ◌∙◌, inl, inr, true, ◌&&◌, ◌||◌, List, ◌++◌, any-mem, mem_of_any, Text, codes,
  text_eq, text_eq_iff, starts_with, starts_with_iff, ends_with, ends_with_iff, drop_last,
  drop_last-append, append_assoc, arith, or_iff, and_iff,
}
use mathlib.Core.List.{Memᴰ}
use lopata.Generations.Routing.{patterns, names_path, should_run_worker_first}

-- A path is named by a pattern: it is the pattern itself, or the pattern is a directory with `/*` behind
-- it, and the path is the directory or lies in it.
pub data RunsUnder (pathname pattern : Text) : Type 0 where
  itself : pathname ≡ pattern → RunsUnder pathname pattern
  directory : (d : Text) → pattern ≡ d ++ codes "/*" → pathname ≡ d → RunsUnder pathname pattern
  inside :
      (d rest : Text)
      → pattern ≡ d ++ codes "/*"
      → pathname ≡ (d ++ codes "/") ++ rest
      → RunsUnder pathname pattern

drop_star : (d : Text) → drop_last 1 (d ++ codes "/*") ≡ d ++ codes "/"
drop_star d =
    ap (drop_last 1) (sym (append_assoc d (codes "/") (codes "*")))
    ∙ drop_last-append (d ++ codes "/") (codes "*")

names_path_sound :
    (pathname pattern : Text) → names_path pathname pattern ≡ true → RunsUnder pathname pattern
names_path_sound pathname pattern h =
    elim ((or_iff (text_eq pattern pathname) (
        ends_with pattern (codes "/*")
        && (starts_with pathname (drop_last 1 pattern)
            || text_eq pathname (drop_last 2 pattern)))).0
      h) [
        | inl e ↦ itself (sym ((text_eq_iff pattern pathname).0 e))
        | inr e ↦
            let (ends, below) =
              (and_iff (ends_with pattern (codes "/*")) (
                  starts_with pathname (drop_last 1 pattern)
                  || text_eq pathname (drop_last 2 pattern))).0
                e in
            let (d, q) = (ends_with_iff pattern (codes "/*")).0 ends in
            elim ((or_iff (starts_with pathname (drop_last 1 pattern))
                (text_eq pathname (drop_last 2 pattern))).0
              below) [
                | inl under ↦
                    let (rest, r) = (starts_with_iff pathname (drop_last 1 pattern)).0 under in
                    inside d rest q (r ∙ ap (λ x. x ++ rest) (ap (drop_last 1) q ∙ drop_star d))
                | inr is ↦ directory d q (
                    (text_eq_iff pathname (drop_last 2 pattern)).0 is
                    ∙ ap (drop_last 2) q
                    ∙ drop_last-append d (codes "/*"))
              ]
      ]

names_path_complete :
    (pathname pattern : Text) → RunsUnder pathname pattern → names_path pathname pattern ≡ true
names_path_complete pathname pattern (itself e) =
    let same = (text_eq_iff pattern pathname).1 (sym e) in ground arith
names_path_complete pathname pattern (directory d q e) =
    let ends = (ends_with_iff pattern (codes "/*")).1 (d, q) in
    let is =
      (text_eq_iff pathname (drop_last 2 pattern)).1
        (e ∙ sym (ap (drop_last 2) q ∙ drop_last-append d (codes "/*"))) in
    ground arith
names_path_complete pathname pattern (inside d rest q e) =
    let ends = (ends_with_iff pattern (codes "/*")).1 (d, q) in
    let under =
      (starts_with_iff pathname (drop_last 1 pattern)).1
        (rest, e ∙ ap (λ x. x ++ rest) (sym (ap (drop_last 1) q ∙ drop_star d))) in
    ground arith

-- With a list of patterns, the worker runs first for exactly the paths that one of them names.
pub should_run_worker_first_iff :
    (ps : List Text) (pathname : Text)
    → (should_run_worker_first (patterns ps) pathname ≡ true)
      ↔ ((p : Text) × Memᴰ p ps × RunsUnder pathname p)
unfolding should_run_worker_first
should_run_worker_first_iff ps pathname = (
  λ h.
      let (p, m, e) = mem_of_any (names_path pathname) ps h in
      (p, m, names_path_sound pathname p e),
  λ (p, m, r). any-mem (names_path pathname) ps p m (names_path_complete pathname p r),
)
