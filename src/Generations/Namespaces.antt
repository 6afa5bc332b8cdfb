-- ===== src/Generations/Namespaces.antt =====
-- How a reload of src/generation-manager.ts wires the Durable Object namespaces of its registry.
use lopata.Common.{
  ℕ, ◌≡◌, sym, ap, subst, Bool, true, false, not, ◌||◌, List, [], ◌∷◌, ◌==◌, keep, text_eq,
  text_eq_iff, text_eq_refl, mem-keep, mem-snoc, any-mem, keep-mem, append-mem_left,
  append-mem_right, arith, Bool-cases, inl, inr, or_iff, ◌⊎◌, Text,
}
use mathlib.Core.List.{Memᴰ}
use lopata.Generations.{has_namespace}
use lopata.Generations.Manager.{Manager, has_id, has_class, set_namespace, wire_namespaces}

-- The classes of a registry have names of their own.
abbrev pub DistinctClasses : List (Text × ℕ) → Type 0
DistinctClasses [] = Unit
DistinctClasses (e ∷ entries) = (has_class entries e ≡ false) × DistinctClasses entries

pub has_class-mem :
    (entries : List (Text × ℕ)) (e : Text × ℕ) → Memᴰ e entries → has_class entries e ≡ true
has_class-mem entries e m = any-mem (λ d. text_eq d.0 e.0) entries e m (text_eq_refl e.0)

text_eq_comm : (a b : Text) → text_eq a b ≡ false → text_eq b a ≡ false
text_eq_comm a b h = elim (Bool-cases (text_eq b a)) [
  | inr e ↦ e
  | inl e ↦ absurd (let back = (text_eq_iff a b).1 (sym ((text_eq_iff b a).0 e)) in ground arith)
]

or_false : (a b : Bool) → (a || b) ≡ false → (a ≡ false) × (b ≡ false)
or_false a b h = ground arith

-- Wiring the namespaces of a registry.
wire_namespaces-stays :
    (entries : List (Text × ℕ)) (m : Manager) (e : Text × ℕ)
    → Memᴰ e m.do_namespaces
    → has_class entries e ≡ false
    → Memᴰ e (wire_namespaces entries m).do_namespaces
unfolding wire_namespaces
wire_namespaces-stays [] m e mem h = mem
wire_namespaces-stays ((class_name, n) ∷ entries) m e mem h =
    let (off, rest) = or_false (text_eq class_name e.0) (has_class entries e) h in
    let other = text_eq_comm class_name e.0 off in
    wire_namespaces-stays entries
      (record m {
        do_namespaces = set_namespace class_name n m.do_namespaces;
        alarms = n ∷ m.alarms;
      })
      e
      (append-mem_left (keep (λ x. not (text_eq x.0 class_name)) m.do_namespaces)
        ((class_name, n) ∷ []) e
        (keep-mem (λ x. not (text_eq x.0 class_name)) m.do_namespaces e mem (ap not other)))
      rest

pub wire_namespaces-mem :
    (entries : List (Text × ℕ)) (m : Manager) (e : Text × ℕ)
    → DistinctClasses entries
    → Memᴰ e entries
    → Memᴰ e (wire_namespaces entries m).do_namespaces
unfolding wire_namespaces
wire_namespaces-mem [] m e d mem = elim mem [ ]
wire_namespaces-mem ((class_name, n) ∷ entries) m e (off, d) (Memᴰ.head q) =
    let next : Manager = record m {
      do_namespaces = set_namespace class_name n m.do_namespaces;
      alarms = n ∷ m.alarms;
    } in
    wire_namespaces-stays entries next e
      (append-mem_right (keep (λ x. not (text_eq x.0 class_name)) m.do_namespaces)
        ((class_name, n) ∷ []) e (Memᴰ.head q))
      (subst (λ x. has_class entries x ≡ false) (sym q) off)
wire_namespaces-mem ((class_name, n) ∷ entries) m e (off, d) (Memᴰ.tail mem) =
    wire_namespaces-mem entries
      (record m {
        do_namespaces = set_namespace class_name n m.do_namespaces;
        alarms = n ∷ m.alarms;
      })
      e d mem

pub wire_namespaces-alarms :
    (entries : List (Text × ℕ)) (m : Manager) (n : ℕ)
    → (has_id n m.alarms ≡ true) ⊎ (has_namespace n entries ≡ true)
    → has_id n (wire_namespaces entries m).alarms ≡ true
unfolding wire_namespaces
wire_namespaces-alarms [] m n (inl h) = h
wire_namespaces-alarms [] m n (inr h) = absurd (ground arith)
wire_namespaces-alarms ((class_name, k) ∷ entries) m n h =
    wire_namespaces-alarms entries
      (record m {
        do_namespaces = set_namespace class_name k m.do_namespaces;
        alarms = k ∷ m.alarms;
      })
      n
      (elim h [
        | inl set ↦ inl ((or_iff (k == n) (has_id n m.alarms)).1 (inr set))
        | inr named ↦ elim ((or_iff (k == n) (has_namespace n entries)).0 named) [
          | inl here ↦ inl ((or_iff (k == n) (has_id n m.alarms)).1 (inl here))
          | inr later ↦ inr later
        ]
      ])

-- Where the shared namespaces come from.
wire_namespaces-from :
    (entries : List (Text × ℕ)) (m : Manager) (e : Text × ℕ)
    → Memᴰ e (wire_namespaces entries m).do_namespaces
    → Memᴰ e m.do_namespaces ⊎ Memᴰ e entries
unfolding wire_namespaces
wire_namespaces-from [] m e mem = inl mem
wire_namespaces-from ((class_name, k) ∷ entries) m e mem =
    elim (wire_namespaces-from entries
      (record m {
        do_namespaces = set_namespace class_name k m.do_namespaces;
        alarms = k ∷ m.alarms;
      })
      e mem) [
        | inr later ↦ inr (Memᴰ.tail later)
        | inl n ↦
            elim (mem-snoc (keep (λ x. not (text_eq x.0 class_name)) m.do_namespaces)
              (class_name, k) e n) [
                | inl old ↦ inl (mem-keep (λ x. not (text_eq x.0 class_name)) m.do_namespaces e old)
                | inr new ↦ inr (Memᴰ.head new)
              ]
      ]

pub wire_namespaces-has_class :
    (entries : List (Text × ℕ)) (m : Manager) (d : Text × ℕ) {A : Type 0}
    → (Memᴰ d m.do_namespaces → A → has_class entries d ≡ true)
    → Memᴰ d (wire_namespaces entries m).do_namespaces
    → A
    → has_class entries d ≡ true
wire_namespaces-has_class entries m d old mem a = elim (wire_namespaces-from entries m d mem) [
  | inl n ↦ old n a
  | inr here ↦ has_class-mem entries d here
]
