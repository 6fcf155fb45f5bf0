-- ===== src/Tuning/Marking/Apart.antt =====
-- About tuning.py, `analyze`: runtime parameters, exact keys and tuned names in its loops.
use intj.Prelude.{
  ℕ, max, String, ◌≡◌, refl, ap, subst, true, false, some, some-inj, List, [], ◌∷◌, all, All,
  All-append, arith, str_eq, Bool-cases, inl, inr, ok, refuse, bind_elim, after-eq-ok, ok-inj,
}
use intj.Prelude.Dict.{Dict, lookup, insert, lookup_of_insert}
use intj.Prelude.Names.{contains}
use intj.Heuristics.{Function, Heuristic, parse_heuristic}
use intj.Tuning.{
  JitParam, Layer, autotuner, heuristics, Kernel, jit_function, layer, unknown, TuningPlan, Role,
  Analysis, names_of, runtime_params, is_runtime, start_info, start, inner_assigned, config_names,
  assign, find, key_level, key_step, key_loop, name_loop, read_roles, lift, place_heuristic,
  heuristic_step, value_loop, layer_step, layer_loop, analyze_chain, add_dependent, add_computed,
  reads_inner, reads_itself,
}
use intj.Tuning.Loops.{assign-eq-ok, find-eq-ok}

module _ (params : List JitParam) where
  -- What is keyed exactly is a runtime parameter, and so is every inexact value; what is tuned is none.
  record Apart (s : Analysis) : Type 0 where
    pub keyed : All (λ k. is_runtime params k ≡ true) s.exact_keys
    pub stored : All (λ d. is_runtime params d.name ≡ false) s.dependent
    pub computed : All (λ c. is_runtime params c.name ≡ false) s.computed
    pub inexact :
        (k : String) (r : Role)
        → lookup k s.info ≡ some r
        → r.exact ≡ false
        → is_runtime params k ≡ true

  -- A role that is exact adds no inexact value.
  insert-inexact :
      (key : String) (new : Role) (info : Dict Role)
      → new.exact ≡ true
      → ((k : String) (r : Role)
          → lookup k info ≡ some r
          → r.exact ≡ false
          → is_runtime params k ≡ true)
      → (k : String) (r : Role) → lookup k (insert key new info) ≡ some r
      → r.exact ≡ false
      → is_runtime params k ≡ true
  insert-inexact key new info is_exact old k r found not_exact =
      elim (lookup_of_insert key k new r info found) [
        | inl same ↦ cc (ap (λ (r : Role). r.exact) same)
        | inr (other, before) ↦ old k r before not_exact
      ]

  key_step-Apart :
      (key : String) (role : Role) (s : Analysis)
      → lookup key s.info ≡ some role
      → Apart s
      → Apart (key_step key role s)
  unfolding key_step
  key_step-Apart key role s found a = elim (Bool-cases role.exact) [
    | inl exact ↦ rw exact a
    | inr inexact ↦ rw inexact (record {
      keyed =
          All-append (λ k. is_runtime params k ≡ true) s.exact_keys (key ∷ []) a.keyed
            (a.inexact key role found inexact, tt);
      stored = a.stored;
      computed = a.computed;
      inexact =
          insert-inexact key (record { exact = true; level = role.known; known = role.known })
            s.info refl a.inexact;
    })
  ]

  add_dependent-Apart :
      (name : String) (level : ℕ) (assigned : List String) (s : Analysis)
      → is_runtime params name ≡ false
      → Apart s
      → Apart (add_dependent name level assigned s)
  add_dependent-Apart name level assigned s h a = record {
    keyed = a.keyed;
    stored =
        All-append (λ d. is_runtime params d.name ≡ false) s.dependent
          (record { name = name; level = level } ∷ []) a.stored (h, tt);
    computed = a.computed;
    inexact = insert-inexact name _ s.info refl a.inexact;
  }

  add_computed-Apart :
      (name : String) (level : ℕ) (heuristic : Heuristic) (assigned : List String) (s : Analysis)
      → is_runtime params name ≡ false
      → Apart s
      → Apart (add_computed name level heuristic assigned s)
  add_computed-Apart name level heuristic assigned s h a = record {
    keyed = a.keyed;
    stored = a.stored;
    computed =
        All-append (λ c. is_runtime params c.name ≡ false) s.computed
          (record { name = name; level = level; heuristic = heuristic } ∷ []) a.computed (h, tt);
    inexact = insert-inexact name _ s.info refl a.inexact;
  }

  key_loop-Apart :
      (inside keys : List String) (level : ℕ) (s : Analysis) {found : ℕ × Analysis}
      → Apart s
      → key_loop params inside keys level s ≡ ok found
      → Apart found.1
  unfolding key_loop
  key_loop-Apart inside [] level s a e = subst (λ (f : ℕ × Analysis). Apart f.1) (ok-inj e) a
  key_loop-Apart inside (key ∷ rest) level s a e =
      elim (Bool-cases (contains (names_of params) key)) [
        | inr skipped ↦ key_loop-Apart inside rest level s a (rw skipped at e)
        | inl keyed ↦
            bind_elim (find (lookup key s.info)) _
              (after-eq-ok (refuse (contains inside key) (reads_inner key)) _ (rw keyed at e))
              λ role found more.
                key_loop-Apart inside rest (max level (key_level role)) (key_step key role s)
                  (key_step-Apart key role s (find-eq-ok (lookup key s.info) found) a) more
      ]

  name_loop-Apart :
      (names : List String) (level : ℕ) (s : Analysis) {t : Analysis}
      → Apart s
      → name_loop params names level s ≡ ok t
      → Apart t
  unfolding name_loop
  name_loop-Apart [] level s a e = subst Apart (ok-inj e) a
  name_loop-Apart (name ∷ rest) level s a e =
      bind_elim (assign params name s.assigned) _ e λ assigned step more.
        name_loop-Apart rest level (add_dependent name level assigned s)
          (add_dependent-Apart name level assigned s (assign-eq-ok params name s.assigned step).1 a)
          more

  place_heuristic-Apart :
      (name : String) (heuristic : Heuristic) (roles : List Role) (assigned : List String)
      (s : Analysis)
      → is_runtime params name ≡ false
      → Apart s
      → Apart (place_heuristic name heuristic roles assigned s)
  unfolding place_heuristic
  place_heuristic-Apart name heuristic roles assigned s h a =
      elim (Bool-cases (all (λ r. r.exact) roles)) [
        | inl exact ↦ rw exact (add_dependent-Apart name _ assigned s h a)
        | inr inexact ↦ rw inexact (add_computed-Apart name _ heuristic assigned s h a)
      ]

  value_loop-Apart :
      (inside : List String) (values : Dict Function) (s : Analysis) {t : Analysis}
      → Apart s
      → value_loop params inside values s ≡ ok t
      → Apart t
  unfolding value_loop heuristic_step
  value_loop-Apart inside [] s a e = subst Apart (ok-inj e) a
  value_loop-Apart inside ((name, fn) ∷ rest) s a e =
      bind_elim (heuristic_step params inside name fn s) _ e λ s' step more.
        bind_elim (lift (parse_heuristic name fn)) _ step λ heuristic parsed step.
          bind_elim (read_roles inside s.info heuristic.inputs) _ step λ roles read step.
            bind_elim (assign params name s.assigned) _
              (after-eq-ok (refuse (contains heuristic.inputs name) (reads_itself name)) _ step)
              λ assigned done placed.
                value_loop-Apart inside rest s'
                  (subst Apart (ok-inj placed) (
                    place_heuristic-Apart name heuristic roles assigned s
                      (assign-eq-ok params name s.assigned done).1 a))
                  more

  layer_loop-Apart :
      (layers : List Layer) (s : Analysis) {t : Analysis}
      → Apart s
      → layer_loop params layers s ≡ ok t
      → Apart t
  unfolding layer_loop layer_step
  layer_loop-Apart [] s a e = subst Apart (ok-inj e) a
  layer_loop-Apart (heuristics values ∷ rest) s a e =
      bind_elim (value_loop params (inner_assigned rest) values s) _ e λ s' step more.
        layer_loop-Apart rest s' (value_loop-Apart (inner_assigned rest) values s a step) more
  layer_loop-Apart (autotuner ks configs ∷ rest) s a e =
      bind_elim (layer_step params (inner_assigned rest) (autotuner ks configs) s) _ e
        λ s' step more.
          bind_elim (key_loop params (inner_assigned rest) ks 0 s) _ step λ found keyed named.
            layer_loop-Apart rest s'
              (name_loop-Apart (config_names configs) found.0 found.1
                (key_loop-Apart (inner_assigned rest) ks 0 s a keyed) named)
              more

-- At the start only runtime parameters are inexact.
start_info-inexact :
    (fixed : List String) (params : List JitParam) (k : String) (r : Role)
    → lookup k (start_info fixed params) ≡ some r
    → r.exact ≡ false
    → is_runtime params k ≡ true
unfolding lookup is_runtime runtime_params contains
start_info-inexact fixed [] k r found inexact = cc
start_info-inexact fixed (p ∷ rest) k r found inexact = elim (Bool-cases (str_eq p.name k)) [
  | inl hit ↦
      let same = ap (λ (r : Role). r.exact) (some-inj _ r (rw hit at found)) in
      ground (arith, hit, same, inexact)
  | inr miss ↦
      let later = start_info-inexact fixed rest k r (rw miss at found) inexact in
      elim (Bool-cases p.is_constexpr) [
        | inl constant ↦ rw constant later
        | inr runtime ↦ rw (runtime, miss) later
      ]
]

-- The plan of a chain over a function with these parameters.
pub chain-Apart :
    (fixed : List String) (layers : List Layer) (innermost : Kernel) {plan : TuningPlan}
    → analyze_chain fixed layers innermost ≡ ok plan
    → (params : List JitParam) × All (λ k. is_runtime params k ≡ true) plan.exact_keys
      × All (λ d. is_runtime params d.name ≡ false) plan.dependent
      × All (λ c. is_runtime params c.name ≡ false) plan.computed
unfolding analyze_chain
chain-Apart fixed [] innermost e = cc
chain-Apart fixed (l ∷ layers) (layer m k) e = cc
chain-Apart fixed (l ∷ layers) unknown e = cc
chain-Apart fixed (l ∷ layers) (jit_function params) {plan} e =
    bind_elim (layer_loop params (l ∷ layers) (start fixed params)) _ e λ s run done.
      let apart =
        layer_loop-Apart params (l ∷ layers) (start fixed params)
          (record {
            keyed = tt;
            stored = tt;
            computed = tt;
            inexact = start_info-inexact fixed params;
          })
          run in
      (
        params,
        subst (λ (plan : TuningPlan). All (λ k. is_runtime params k ≡ true) plan.exact_keys)
            (ok-inj done) apart.keyed,
        subst (λ (plan : TuningPlan). All (λ d. is_runtime params d.name ≡ false) plan.dependent)
            (ok-inj done) apart.stored,
        subst (λ (plan : TuningPlan). All (λ c. is_runtime params c.name ≡ false) plan.computed)
            (ok-inj done) apart.computed,
      )
