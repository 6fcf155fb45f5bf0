-- ===== src/Tuning/Steps.antt =====
-- About tuning.py, `analyze`: the invariant of its loops, at the assignments of a role.
use intj.Prelude.{
  ℕ, ◌+◌, ◌≤◌, String, ◌≡◌, ◌≢◌, refl, sym, ap, subst, some-inj, ◌∙◌, true, false, some, List, [],
  ◌∷◌, ◌++◌, map, All, All-append, All-mono, max_of, arith, str_eq, eq_iff, Bool-cases, inl, inr,
}
use intj.Prelude.Dict.{Dict, lookup, insert, lookup-insert_self, lookup-insert_ne, lookup_of_insert}
use intj.Prelude.Names.{contains, contains-append}
use intj.Heuristics.{Heuristic}
use intj.Tuning.{
  Dependent, Computed, Role, Analysis, key_step, make_exact, add_dependent, add_computed,
}

-- The highest level of a computed key so far.
abbrev pub peak : List Computed → ℕ
peak computed = max_of (map (λ c. c.level) computed)

-- A dependent value's role says that it is known one lookup after its level.
pub record IsStored (s : Analysis) (d : Dependent) : Type 0 where
  pub role : Role
  pub found : lookup d.name s.info ≡ some role
  pub is_exact : role.exact ≡ true
  pub next : role.known ≡ d.level + 1
  pub taken : contains s.assigned d.name ≡ true
  pub below : d.level ≤ peak s.computed

-- What a computed key at `level` reads is known by then, and no later step assigns it.
pub record IsSettled (info : Dict Role) (future : List String) (level : ℕ) (read : String)
    : Type 0 where
  pub role : Role
  pub found : lookup read info ≡ some role
  pub known : role.known ≤ level
  pub kept : contains future read ≡ false

-- `future` holds the names that are still to be assigned.
pub record Inv (future : List String) (s : Analysis) : Type 0 where
  pub fresh : (k : String) (r : Role) → lookup k s.info ≡ some r → r.exact ≡ false → r.known ≡ 0
  pub level_le : (k : String) (r : Role) → lookup k s.info ≡ some r → r.level ≤ peak s.computed
  pub stored : All (IsStored s) s.dependent
  pub settled : All (λ c. All (IsSettled s.info future c.level) c.heuristic.inputs) s.computed

-- One more computed key does not lower the peak.
peak-snoc : (cs : List Computed) (c : Computed) → peak cs ≤ peak (cs ++ c ∷ [])
peak-snoc [] c = omega arith
peak-snoc (x ∷ cs) c = omega (arith, peak-snoc cs c)

peak-snoc_self : (cs : List Computed) (c : Computed) → c.level ≤ peak (cs ++ c ∷ [])
peak-snoc_self [] c = omega arith
peak-snoc_self (x ∷ cs) c = omega (arith, peak-snoc_self cs c)

module _ (key : String) (role : Role) (future : List String) (s : Analysis)
    (found : lookup key s.info ≡ some role) (inexact : role.exact ≡ false) where
  abbrev exact_role : Role
  exact_role = record { exact = true; level = role.known; known = role.known }

  make_exact-IsStored : (d : Dependent) → IsStored s d → IsStored (make_exact key role s) d
  make_exact-IsStored d h = record {
    role = h.role;
    found = lookup-insert_ne key d.name exact_role s.info other ∙ h.found;
    is_exact = h.is_exact;
    next = h.next;
    taken = h.taken;
    below = h.below;
  }
    where
      other : key ≢ d.name
      other p = cc (ap (λ k. lookup k s.info) p, found, h.found, h.is_exact, inexact)

  make_exact-IsSettled :
      (level : ℕ) (read : String)
      → IsSettled s.info future level read
      → IsSettled (make_exact key role s).info future level read
  make_exact-IsSettled level read h = elim (Bool-cases (str_eq key read)) [
    | inl hit ↦
        let p = (eq_iff key read).0 hit in
        let same : h.role ≡ role =
          some-inj _ _ (sym h.found ∙ ap (λ k. lookup k s.info) (sym p) ∙ found) in
        record {
          role = exact_role;
          found =
              subst (λ k. lookup k (make_exact key role s).info ≡ some exact_role) p
                (lookup-insert_self key exact_role s.info);
          known = subst (λ (r : Role). r.known ≤ level) same h.known;
          kept = h.kept;
        }
    | inr miss ↦ record {
      role = h.role;
      found =
          lookup-insert_ne key read exact_role s.info (λ p. cc ((eq_iff key read).1 p)) ∙ h.found;
      known = h.known;
      kept = h.kept;
    }
  ]

  make_exact-Inv : Inv future s → Inv future (make_exact key role s)
  make_exact-Inv inv = record {
    fresh = λ k r e x. elim (lookup_of_insert key k exact_role r s.info e) [
      | inl same ↦ cc (ap (λ (r : Role). r.exact) same)
      | inr old ↦ inv.fresh k r old.1 x
    ];
    level_le = λ k r e. elim (lookup_of_insert key k exact_role r s.info e) [
      | inl same ↦ omega (arith, ap (λ (r : Role). r.level) same, inv.fresh key role found inexact)
      | inr old ↦ inv.level_le k r old.1
    ];
    stored =
        All-mono (IsStored s) (IsStored (make_exact key role s)) s.dependent make_exact-IsStored
          inv.stored;
    settled =
        All-mono _ _ s.computed
          (λ c. All-mono _ _ c.heuristic.inputs (make_exact-IsSettled c.level)) inv.settled;
  }

-- A key that becomes exact keeps what is known of it.
pub key_step-Inv :
    (key : String) (role : Role) (future : List String) (s : Analysis)
    → lookup key s.info ≡ some role
    → Inv future s
    → Inv future (key_step key role s)
unfolding key_step
key_step-Inv key role future s found inv = elim (Bool-cases role.exact) [
  | inl is_exact ↦ rw is_exact inv
  | inr inexact ↦ rw inexact (make_exact-Inv key role future s found inexact inv)
]

module _ (name : String) (rest : List String) (s : Analysis)
    (unused : contains s.assigned name ≡ false) where
  abbrev extended : List String
  extended = s.assigned ++ name ∷ []

  -- Storing a role for a new name changes nothing for the values that are stored.
  insert-IsStored :
      (role : Role) (t : Analysis)
      → t.info ≡ insert name role s.info
      → t.assigned ≡ extended
      → peak s.computed ≤ peak t.computed
      → (d : Dependent) → IsStored s d
      → IsStored t d
  insert-IsStored role t i a above d h = record {
    role = h.role;
    found = rw i (
        lookup-insert_ne name d.name role s.info
          (λ p. cc (ap (contains s.assigned) p, unused, h.taken))
        ∙ h.found);
    is_exact = h.is_exact;
    next = h.next;
    taken = rw a (ground (arith, contains-append s.assigned (name ∷ []) d.name, h.taken));
    below = omega (arith, h.below);
  }

  insert-IsSettled :
      (role : Role) (level : ℕ) (read : String)
      → IsSettled s.info (name ∷ rest) level read
      → IsSettled (insert name role s.info) rest level read
  unfolding contains
  insert-IsSettled role level read h = record {
    role = h.role;
    found =
        lookup-insert_ne name read role s.info (λ p. ground (arith, h.kept, eq_iff name read))
        ∙ h.found;
    known = h.known;
    kept = ground (arith, h.kept);
  }

  contains-extended : contains extended name ≡ true
  unfolding contains
  contains-extended = ground (arith, contains-append s.assigned (name ∷ []) name, eq_iff name name)

  -- A dependent value at a level that is not above the peak.
  pub add_dependent-Inv :
      (level : ℕ)
      → level ≤ peak s.computed
      → Inv (name ∷ rest) s
      → Inv rest (add_dependent name level extended s)
  add_dependent-Inv level le inv = record {
    fresh = λ k r e x. elim (lookup_of_insert name k role r s.info e) [
      | inl same ↦ cc (ap (λ (r : Role). r.exact) same)
      | inr old ↦ inv.fresh k r old.1 x
    ];
    level_le = λ k r e. elim (lookup_of_insert name k role r s.info e) [
      | inl same ↦ omega (arith, ap (λ (r : Role). r.level) same)
      | inr old ↦ inv.level_le k r old.1
    ];
    stored =
        All-append (IsStored t) s.dependent _
          (All-mono (IsStored s) (IsStored t) s.dependent
            (insert-IsStored role t refl refl (omega arith)) inv.stored)
          (
            record {
              role = role;
              found = lookup-insert_self name role s.info;
              is_exact = refl;
              next = refl;
              taken = contains-extended;
              below = le;
            },
            tt,
          );
    settled =
        All-mono _ _ s.computed
          (λ c. All-mono _ _ c.heuristic.inputs (insert-IsSettled role c.level)) inv.settled;
  }
    where
      role : Role
      role = record { exact = true; level = level; known = level + 1 }

      t : Analysis
      t = add_dependent name level extended s

  -- A computed key whose reads are known by its level and are not assigned later.
  pub add_computed-Inv :
      (level : ℕ) (heuristic : Heuristic)
      → All (IsSettled s.info (name ∷ rest) level) heuristic.inputs
      → Inv (name ∷ rest) s
      → Inv rest (add_computed name level heuristic extended s)
  add_computed-Inv level heuristic reads inv = record {
    fresh = λ k r e x. elim (lookup_of_insert name k role r s.info e) [
      | inl same ↦ cc (ap (λ (r : Role). r.exact) same)
      | inr old ↦ inv.fresh k r old.1 x
    ];
    level_le = λ k r e. elim (lookup_of_insert name k role r s.info e) [
      | inl same ↦ omega (arith, ap (λ (r : Role). r.level) same, peak-snoc_self s.computed c)
      | inr old ↦ omega (arith, inv.level_le k r old.1, peak-snoc s.computed c)
    ];
    stored =
        All-mono (IsStored s) (IsStored t) s.dependent
          (insert-IsStored role t refl refl (peak-snoc s.computed c)) inv.stored;
    settled =
        All-append _ s.computed (c ∷ [])
          (All-mono _ _ s.computed
            (λ c. All-mono _ _ c.heuristic.inputs (insert-IsSettled role c.level)) inv.settled)
          (All-mono _ _ heuristic.inputs (insert-IsSettled role level) reads, tt);
  }
    where
      role : Role
      role = record { exact = true; level = level; known = level }

      c : Computed
      c = record { name = name; level = level; heuristic = heuristic }

      t : Analysis
      t = add_computed name level heuristic extended s
