-- ===== src/Generations/Core.antt =====
-- What every step of the manager of src/generation-manager.ts keeps.
use lopata.Common.{
  ℕ, suc, ◌≤◌, ◌<◌, ◌≡◌, ◌≢◌, refl, ◌∙◌, sym, ap, subst, Bool, true, Option, none, some, List, [],
  ◌∷◌, ◌++◌, map, ◌==◌, keep, mem-keep, mem-map, mem-snoc, arith, Bool-cases, inl, inr, or_iff, ◌⊎◌,
}
use mathlib.Core.List.{Memᴰ}
use lopata.Generations.{is_stopped, is_active, Generation, drain, stop}
use lopata.Generations.Manager.{has_id, at_id}

-- A generation is one that is being introduced.
abbrev pub IsNew : Option ℕ → Generation → Type 0
IsNew new g = new ≡ some g.id

module _ (gens : List Generation) (next : ℕ) (current new : Option ℕ) (calls : List ℕ) where
  -- Generations are numbered in order, and only the current one, which is the last, is active; one that
  -- is being introduced is neither current nor told to resume. Once a generation was told to resume, every older one has
  -- stopped.
  pub record Core : Type 0 where
    pub fresh : (g : Generation) → Memᴰ g gens → g.id < next
    pub unique : (g h : Generation) → Memᴰ g gens → Memᴰ h gens → g.id ≡ h.id → g ≡ h
    pub last : (g : Generation) (a : ℕ) → Memᴰ g gens → current ≡ some a → (g.id ≤ a) ⊎ IsNew new g
    pub only_active :
        (g : Generation)
        → Memᴰ g gens
        → is_active g.state ≡ true
        → (current ≡ some g.id) ⊎ IsNew new g
    pub none_yet : (g : Generation) → Memᴰ g gens → current ≡ none → IsNew new g
    pub called : (i : ℕ) → has_id i calls ≡ true → (i < next) × (new ≢ some i)
    pub at_current : (i : ℕ) → current ≡ some i → (i < next) × (new ≢ some i)
    pub older_stopped :
        (i : ℕ) (g : Generation)
        → has_id i calls ≡ true
        → Memᴰ g gens
        → g.id < i
        → is_stopped g.state ≡ true

-- A change of one generation that keeps its number, revives nothing and activates nothing.
pub record Tame (f : Generation → Generation) : Type 0 where
  pub same_id : (g : Generation) → (f g).id ≡ g.id
  pub stays_stopped : (g : Generation) → is_stopped g.state ≡ true → is_stopped (f g).state ≡ true
  pub was_active : (g : Generation) → is_active (f g).state ≡ true → is_active g.state ≡ true

pub Tame-at_id : (id : ℕ) (f : Generation → Generation) → Tame f → Tame (at_id id f)
Tame-at_id id f t = record {
  same_id = λ g. elim (Bool-cases (g.id == id)) [ inl e ↦ rw e (t.same_id g) | inr e ↦ rw e refl ];
  stays_stopped =
      λ g h. elim (Bool-cases (g.id == id)) [ inl e ↦ rw e (t.stays_stopped g h) | inr e ↦ rw e h ];
  was_active = λ g h. elim (Bool-cases (g.id == id)) [
    | inl e ↦ t.was_active g (rw e at h)
    | inr e ↦ rw e at h
  ];
}

pub Tame-drain : Tame drain
unfolding drain
Tame-drain = record {
  same_id = λ g. ground arith;
  stays_stopped = λ g h. ground arith;
  was_active = λ g h. ground arith;
}

pub Tame-stop : Tame stop
unfolding stop drain
Tame-stop = record {
  same_id = λ g. ground arith;
  stays_stopped = λ g h. ground arith;
  was_active = λ g h. ground arith;
}

module _ {gens : List Generation} {next : ℕ} {current new : Option ℕ} {calls : List ℕ}
    (c : Core gens next current new calls) where
  pub Core-keep : (p : Generation → Bool) → Core (keep p gens) next current new calls
  Core-keep p = record {
    fresh = λ g m. c.fresh g (mem-keep p gens g m);
    unique = λ g h m n e. c.unique g h (mem-keep p gens g m) (mem-keep p gens h n) e;
    last = λ g a m e. c.last g a (mem-keep p gens g m) e;
    only_active = λ g m a. c.only_active g (mem-keep p gens g m) a;
    none_yet = λ g m e. c.none_yet g (mem-keep p gens g m) e;
    called = c.called;
    at_current = c.at_current;
    older_stopped = λ i g h m l. c.older_stopped i g h (mem-keep p gens g m) l;
  }

  pub Core-map : (f : Generation → Generation) → Tame f → Core (map f gens) next current new calls
  Core-map f t = record {
    fresh = λ g m.
        let (h, n, e) = mem-map f gens g m in
        subst (λ i. i < next) (sym (ap (λ x. x.id) e ∙ t.same_id h)) (c.fresh h n);
    unique = λ g h m n e.
        let (g0, m0, eg) = mem-map f gens g m in
        let (h0, n0, eh) = mem-map f gens h n in
        let ids : g0.id ≡ h0.id =
          sym (ap (λ x. x.id) eg ∙ t.same_id g0) ∙ e ∙ ap (λ x. x.id) eh ∙ t.same_id h0 in
        eg ∙ ap f (c.unique g0 h0 m0 n0 ids) ∙ sym eh;
    last = λ g a m e.
        let (h, n, eq) = mem-map f gens g m in
        subst (λ i. (i ≤ a) ⊎ (new ≡ some i)) (sym (ap (λ x. x.id) eq ∙ t.same_id h))
          (c.last h a n e);
    only_active = λ g m a.
        let (h, n, eq) = mem-map f gens g m in
        subst (λ i. (current ≡ some i) ⊎ (new ≡ some i)) (sym (ap (λ x. x.id) eq ∙ t.same_id h))
          (c.only_active h n (t.was_active h (subst (λ x. is_active x.state ≡ true) eq a)));
    none_yet = λ g m e.
        let (h, n, eq) = mem-map f gens g m in
        subst (λ i. new ≡ some i) (sym (ap (λ x. x.id) eq ∙ t.same_id h)) (c.none_yet h n e);
    called = c.called;
    at_current = c.at_current;
    older_stopped = λ i g h m l.
        let (g0, n, eq) = mem-map f gens g m in
        let ids = ap (λ x. x.id) eq ∙ t.same_id g0 in
        subst (λ x. is_stopped x.state ≡ true) (sym eq)
          (t.stays_stopped g0 (c.older_stopped i g0 h n (subst (λ k. k < i) ids l)));
  }

  -- A call on a generation that no older one blocks.
  pub Core-call :
      (a : ℕ)
      → a < next
      → (new ≢ some a)
      → ((g : Generation) → Memᴰ g gens → g.id < a → is_stopped g.state ≡ true)
      → Core gens next current new (a ∷ calls)
  Core-call a small other older = record {
    fresh = c.fresh;
    unique = c.unique;
    last = c.last;
    only_active = c.only_active;
    none_yet = c.none_yet;
    called = λ i h. elim ((or_iff (a == i) (has_id i calls)).0 h) [
      | inl e ↦
          let same : a ≡ i = ground arith in
          subst (λ k. (k < next) × (new ≢ some k)) same (small, other)
      | inr e ↦ c.called i e
    ];
    at_current = c.at_current;
    older_stopped = λ i g h m l. elim ((or_iff (a == i) (has_id i calls)).0 h) [
      | inl e ↦ older g m (ground arith)
      | inr e ↦ c.older_stopped i g e m l
    ];
  }

-- A new generation comes in.
pub Core-add :
    (gens : List Generation) (next : ℕ) (current : Option ℕ) (calls : List ℕ) (g : Generation)
    → Core gens next current none calls
    → g.id ≡ next
    → Core (gens ++ (g ∷ [])) (suc next) current (some next) calls
Core-add gens next current calls new c e = record {
  fresh = λ g m. elim (mem-snoc gens new g m) [
    | inl n ↦ omega (arith, c.fresh g n)
    | inr q ↦ let id = ap (λ x. x.id) q in omega (arith, id, e)
  ];
  unique = λ g h m n ids. elim (mem-snoc gens new g m) [
    | inl m0 ↦ elim (mem-snoc gens new h n) [
      | inl n0 ↦ c.unique g h m0 n0 ids
      | inr q ↦ absurd (let id = ap (λ x. x.id) q in omega (arith, c.fresh g m0, ids, id, e))
    ]
    | inr p ↦ elim (mem-snoc gens new h n) [
      | inl n0 ↦ absurd (let id = ap (λ x. x.id) p in omega (arith, c.fresh h n0, ids, id, e))
      | inr q ↦ p ∙ sym q
    ]
  ];
  last = λ g a m h. elim (mem-snoc gens new g m) [
    | inl n ↦ elim (c.last g a n h) [ inl le ↦ inl le | inr bad ↦ absurd (ground arith) ]
    | inr q ↦ inr (ap some (sym (ap (λ x. x.id) q ∙ e)))
  ];
  only_active = λ g m a. elim (mem-snoc gens new g m) [
    | inl n ↦ elim (c.only_active g n a) [ inl le ↦ inl le | inr bad ↦ absurd (ground arith) ]
    | inr q ↦ inr (ap some (sym (ap (λ x. x.id) q ∙ e)))
  ];
  none_yet = λ g m h. elim (mem-snoc gens new g m) [
    | inl n ↦ absurd (let bad = c.none_yet g n h in ground arith)
    | inr q ↦ ap some (sym (ap (λ x. x.id) q ∙ e))
  ];
  called = λ i h.
      let (l, _) = c.called i h in
      (omega (arith, l), λ q. let same : next ≡ i = ground arith in omega (arith, same, l));
  at_current = λ i h.
      let (l, _) = c.at_current i h in
      (omega (arith, l), λ q. let same : next ≡ i = ground arith in omega (arith, same, l));
  older_stopped = λ i g h m l. elim (mem-snoc gens new g m) [
    | inl n ↦ c.older_stopped i g h n l
    | inr q ↦
        absurd
          (let id = ap (λ x. x.id) q in let (k, _) = c.called i h in omega (arith, k, id, e, l))
  ];
}

-- The new generation becomes the current one.
pub Core-activate :
    (gens : List Generation) (n : ℕ) (current : Option ℕ) (calls : List ℕ)
    → Core gens (suc n) current (some n) calls
    → ((g : Generation) → Memᴰ g gens → is_active g.state ≡ true → g.id ≡ n)
    → Core gens (suc n) (some n) none calls
Core-activate gens n current calls c only = record {
  fresh = c.fresh;
  unique = c.unique;
  last = λ g a m e. inl (let same : n ≡ a = ground arith in omega (arith, c.fresh g m, same));
  only_active = λ g m a. inl (ap some (sym (only g m a)));
  none_yet = λ g m e. absurd (ground arith);
  called = λ i h. let (l, _) = c.called i h in (l, λ q. absurd (ground arith));
  at_current =
      λ i h. let same : n ≡ i = ground arith in (omega (arith, same), λ q. absurd (ground arith));
  older_stopped = c.older_stopped;
}
