-- ===== src/Tuning/Loops.antt =====
-- About tuning.py, `analyze`: its loops, for the invariant of Tuning/Steps.
use intj.Prelude.{
  ℕ, ◌≤◌, max, String, ◌≡◌, ap, subst, false, Option, none, some, List, [], ◌∷◌, ◌++◌, map, All,
  all, max_of, arith, eq_iff, Bool-cases, inl, inr, Result, ok, err, bind_elim, >>=-eq-ok, ok-inj,
  refuse-eq-ok,
}
use intj.Prelude.Dict.{Dict, lookup, keys}
use intj.Prelude.Names.{contains, contains-append}
use intj.Heuristics.{Function, Heuristic, HeuristicError, parse_heuristic}
use intj.Tuning.{
  JitParam, Layer, autotuner, heuristics, Role, Analysis, inner_assigned, config_names, assigns,
  assign, find, require, names_of, key_step, key_level, key_loop, name_loop, read_roles, lift,
  place_heuristic, heuristic_step, value_loop, layer_step, layer_loop, add_dependent, is_runtime,
  reads_inner, reads_itself,
}
use intj.Tuning.Steps.{peak, IsSettled, Inv, key_step-Inv, add_dependent-Inv, add_computed-Inv}

pub assign-eq-ok :
    (params : List JitParam) (name : String) (assigned : List String) {next : List String}
    → assign params name assigned ≡ ok next
    → (contains assigned name ≡ false)
      × (is_runtime params name ≡ false)
      × (next ≡ assigned ++ name ∷ [])
unfolding assign
assign-eq-ok params name assigned e = ground arith

pub find-eq-ok : (o : Option Role) {r : Role} → find o ≡ ok r → o ≡ some r
find-eq-ok none e = cc
find-eq-ok (some a) e = ap some (ok-inj e)

require-eq-ok : (n : String) (o : Option Role) {r : Role} → require n o ≡ ok r → o ≡ some r
require-eq-ok n none e = cc
require-eq-ok n (some a) e = ap some (ok-inj e)

-- The level that a key contributes is that of a computed key, or 0.
key_step-level :
    (key : String) (role : Role) (future : List String) (s : Analysis) (level : ℕ)
    → lookup key s.info ≡ some role
    → Inv future s
    → level ≤ peak s.computed
    → max level (key_level role) ≤ peak (key_step key role s).computed
unfolding key_step
key_step-level key role future s level found inv le = elim (Bool-cases role.exact) [
  | inl e ↦ rw e (omega (arith, inv.level_le key role found))
  | inr e ↦ rw e (omega (arith, inv.fresh key role found e))
]

key_loop-Inv :
    (params : List JitParam) (inside future keys : List String) (level : ℕ) (s : Analysis)
    {found : ℕ × Analysis}
    → level ≤ peak s.computed
    → Inv future s
    → key_loop params inside keys level s ≡ ok found
    → (found.0 ≤ peak found.1.computed) × Inv future found.1
unfolding key_loop
key_loop-Inv params inside future [] level s le inv e =
    subst (λ (f : ℕ × Analysis). (f.0 ≤ peak f.1.computed) × Inv future f.1) (ok-inj e) (le, inv)
key_loop-Inv params inside future (key ∷ rest) level s le inv e =
    elim (Bool-cases (contains (names_of params) key)) [
      | inr skipped ↦ key_loop-Inv params inside future rest level s le inv (rw skipped at e)
      | inl named ↦
          let (_, k) = refuse-eq-ok (contains inside key) (reads_inner key) _ (rw named at e) in
          let (role, found, k') = >>=-eq-ok (find (lookup key s.info)) _ k in
          let at_key = find-eq-ok (lookup key s.info) found in
          key_loop-Inv params inside future rest (max level (key_level role)) (key_step key role s)
            (key_step-level key role future s level at_key inv le)
            (key_step-Inv key role future s at_key inv) k'
    ]

-- The roles that were read, name by name.
abbrev ReadsOf : List String → Dict Role → List String → List Role → Type 0
ReadsOf inside info [] [] = Unit
ReadsOf inside info (n ∷ ns) (r ∷ rs) =
    (lookup n info ≡ some r) × (contains inside n ≡ false) × ReadsOf inside info ns rs
ReadsOf inside info _ _ = ⊥

read_roles-ReadsOf :
    (inside : List String) (info : Dict Role) (reads : List String) {roles : List Role}
    → read_roles inside info reads ≡ ok roles
    → ReadsOf inside info reads roles
unfolding read_roles
read_roles-ReadsOf inside info [] e = subst (ReadsOf inside info []) (ok-inj e) tt
read_roles-ReadsOf inside info (n ∷ ns) e =
    let (outside, k) = refuse-eq-ok (contains inside n) (reads_inner n) _ e in
    let (role, found, k') = >>=-eq-ok (require n (lookup n info)) _ k in
    let (roles, others, done) = >>=-eq-ok (read_roles inside info ns) _ k' in
    subst (ReadsOf inside info (n ∷ ns)) (ok-inj done)
      (require-eq-ok n (lookup n info) found, outside, read_roles-ReadsOf inside info ns others)

name_loop-Inv :
    (params : List JitParam) (names future : List String) (level : ℕ) (s : Analysis) {t : Analysis}
    → level ≤ peak s.computed
    → Inv (names ++ future) s
    → name_loop params names level s ≡ ok t
    → Inv future t
unfolding name_loop
name_loop-Inv params [] future level s le inv e = subst (Inv future) (ok-inj e) inv
name_loop-Inv params (name ∷ rest) future level s le inv e =
    let (next, a, k) = >>=-eq-ok (assign params name s.assigned) _ e in
    let (unused, _, extends) = assign-eq-ok params name s.assigned a in
    name_loop-Inv params rest future level (add_dependent name level next s) le
      (rw extends (add_dependent-Inv name (rest ++ future) s unused level le inv)) k

-- What a heuristic reads, at a level that is not below what is known of it.
ReadsOf-IsSettled :
    (inside future : List String) (info : Dict Role) (level : ℕ) (reads : List String)
    (roles : List Role)
    → ReadsOf inside info reads roles
    → max_of (map (λ r. r.known) roles) ≤ level
    → All (λ n. contains inside n ≡ false → contains future n ≡ false) reads
    → All (IsSettled info future level) reads
ReadsOf-IsSettled inside future info level [] [] r le kept = tt
ReadsOf-IsSettled inside future info level [] (x ∷ xs) r le kept = absurd r
ReadsOf-IsSettled inside future info level (n ∷ ns) [] r le kept = absurd r
ReadsOf-IsSettled inside future info level (n ∷ ns) (role ∷ roles) r le kept = (
  record { role = role; found = r.0; known = omega arith; kept = kept.0 r.1 },
  ReadsOf-IsSettled inside future info level ns roles r.2 (omega arith) kept.1,
)

ReadsOf-level :
    (inside future : List String) (s : Analysis) (reads : List String) (roles : List Role)
    → Inv future s
    → ReadsOf inside s.info reads roles
    → max_of (map (λ r. r.level) roles) ≤ peak s.computed
ReadsOf-level inside future s [] [] inv r = omega arith
ReadsOf-level inside future s [] (x ∷ xs) inv r = absurd r
ReadsOf-level inside future s (n ∷ ns) [] inv r = absurd r
ReadsOf-level inside future s (n ∷ ns) (role ∷ roles) inv r =
    omega (arith, inv.level_le n role r.0, ReadsOf-level inside future s ns roles inv r.2)

-- No heuristic of a layer reads what a later entry of the same layer assigns.
abbrev pub ReadsForward : Dict Function → Type 0
ReadsForward [] = Unit
ReadsForward ((name, fn) ∷ rest) =
    ((h : Heuristic)
      → parse_heuristic name fn ≡ ok h
      → All (λ n. contains (keys rest) n ≡ false) h.inputs)
    × ReadsForward rest

abbrev pub LayerReadsForward : Layer → Type 0
LayerReadsForward (autotuner _ _) = Unit
LayerReadsForward (heuristics values) = ReadsForward values

lift-eq-ok : (r : Result HeuristicError Heuristic) {h : Heuristic} → lift r ≡ ok h → r ≡ ok h
lift-eq-ok (ok a) e = ap ok (ok-inj e)
lift-eq-ok (err x) e = cc

-- A name that the heuristic reads is neither itself, nor assigned later or further inside.
reads-kept :
    (name : String) (rest inside reads : List String)
    → contains reads name ≡ false
    → All (λ n. contains rest n ≡ false) reads
    → All (λ n. contains inside n ≡ false → contains (name ∷ (rest ++ inside)) n ≡ false) reads
unfolding contains
reads-kept name rest inside [] other later = tt
reads-kept name rest inside (n ∷ ns) other later = (
  (λ outside. ground (arith, contains-append rest inside n, later.0, eq_iff name n, eq_iff n name)),
  reads-kept name rest inside ns (ground arith) later.1,
)

module _ (name : String) (rest inside : List String) (s : Analysis) (h : Heuristic)
    (roles : List Role) (inv : Inv (name ∷ (rest ++ inside)) s)
    (reads : ReadsOf inside s.info h.inputs roles) (other : contains h.inputs name ≡ false)
    (unused : contains s.assigned name ≡ false)
    (later : All (λ n. contains rest n ≡ false) h.inputs) where
  place_heuristic-Inv :
      Inv (rest ++ inside) (place_heuristic name h roles (s.assigned ++ name ∷ []) s)
  unfolding place_heuristic
  place_heuristic-Inv = elim (Bool-cases (all (λ r. r.exact) roles)) [
    | inl exact ↦ rw exact (
        add_dependent-Inv name (rest ++ inside) s unused _
          (ReadsOf-level inside (name ∷ (rest ++ inside)) s h.inputs roles inv reads) inv)
    | inr inexact ↦ rw inexact (
        add_computed-Inv name (rest ++ inside) s unused _ h
          (ReadsOf-IsSettled inside (name ∷ (rest ++ inside)) s.info _ h.inputs roles reads
            (omega arith) (reads-kept name rest inside h.inputs other later))
          inv)
  ]

heuristic_step-Inv :
    (params : List JitParam) (inside : List String) (name : String) (fn : Function)
    (rest : List String) (s : Analysis) {t : Analysis}
    → ((h : Heuristic)
        → parse_heuristic name fn ≡ ok h
        → All (λ n. contains rest n ≡ false) h.inputs)
    → Inv (name ∷ (rest ++ inside)) s
    → heuristic_step params inside name fn s ≡ ok t
    → Inv (rest ++ inside) t
unfolding heuristic_step
heuristic_step-Inv params inside name fn rest s forward inv e =
    bind_elim (lift (parse_heuristic name fn)) _ e λ h parsed k.
      bind_elim (read_roles inside s.info h.inputs) _ k λ roles read k'.
        bind_elim (assign params name s.assigned) _
          (refuse-eq-ok (contains h.inputs name) (reads_itself name) _ k').1
          λ next assigned done.
            let (unused, _, extends) = assign-eq-ok params name s.assigned assigned in
            subst (Inv (rest ++ inside)) (ok-inj done) (
              rw extends (
                place_heuristic-Inv name rest inside s h roles inv
                  (read_roles-ReadsOf inside s.info h.inputs read)
                  (refuse-eq-ok (contains h.inputs name) (reads_itself name) _ k').0 unused
                  (forward h (lift-eq-ok (parse_heuristic name fn) parsed))))

value_loop-Inv :
    (params : List JitParam) (inside : List String) (values : Dict Function) (s : Analysis)
    {t : Analysis}
    → ReadsForward values
    → Inv (keys values ++ inside) s
    → value_loop params inside values s ≡ ok t
    → Inv inside t
unfolding value_loop
value_loop-Inv params inside [] s forward inv e = subst (Inv inside) (ok-inj e) inv
value_loop-Inv params inside ((name, fn) ∷ rest) s forward inv e =
    bind_elim (heuristic_step params inside name fn s) _ e λ s' step k.
      value_loop-Inv params inside rest s' forward.1
        (heuristic_step-Inv params inside name fn (keys rest) s forward.0 inv step) k

layer_step-Inv :
    (params : List JitParam) (inside : List String) (l : Layer) (s : Analysis) {t : Analysis}
    → LayerReadsForward l
    → Inv (assigns l ++ inside) s
    → layer_step params inside l s ≡ ok t
    → Inv inside t
unfolding layer_step
layer_step-Inv params inside (autotuner ks configs) s forward inv e =
    bind_elim (key_loop params inside ks 0 s) _ e λ found step k.
      let kept =
        key_loop-Inv params inside (config_names configs ++ inside) ks 0 s (omega arith) inv step in
      name_loop-Inv params (config_names configs) inside found.0 found.1 kept.0 kept.1 k
layer_step-Inv params inside (heuristics values) s forward inv e =
    value_loop-Inv params inside values s forward inv e

pub layer_loop-Inv :
    (params : List JitParam) (layers : List Layer) (s : Analysis) {t : Analysis}
    → All LayerReadsForward layers
    → Inv (inner_assigned layers) s
    → layer_loop params layers s ≡ ok t
    → Inv [] t
unfolding layer_loop
layer_loop-Inv params [] s forward inv e = subst (Inv []) (ok-inj e) inv
layer_loop-Inv params (l ∷ rest) s forward inv e =
    bind_elim (layer_step params (inner_assigned rest) l s) _ e λ s' step k.
      layer_loop-Inv params rest s' forward.1
        (layer_step-Inv params (inner_assigned rest) l s forward.0 inv step) k
