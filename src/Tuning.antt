-- ===== src/Tuning.antt =====
-- tuning.py: `analyze`, which gives every name of an autotune/heuristics chain its role.
mod Examples
pub mod Levels
pub mod Loops
pub mod Marking
pub mod Render
pub mod Steps
use intj.Prelude.{
  ℕ, zero, suc, ◌+◌, max, String, Bool, true, false, not, ◌&&◌, ◌||◌, Option, none, some, List, [],
  ◌∷◌, ◌++◌, map, all, concat_map, max_of, Result, ok, err, ◌>>=◌, ◌>>◌, refuse, if◌then◌else◌,
}
use intj.Prelude.Dict.{Dict, lookup, insert, keys}
use intj.Prelude.Names.{contains, distinct_from}
use intj.Values.{Value}
use intj.Heuristics.{Function, Heuristic, HeuristicError, parse_heuristic}

pub record Dependent : Type 0 where
  pub name : String
  pub level : ℕ

pub record Computed : Type 0 where
  pub name : String
  pub level : ℕ
  pub heuristic : Heuristic

-- What `analyze` reads of a Triton parameter.
pub record JitParam : Type 0 where
  pub name : String
  pub is_constexpr : Bool

-- A layer: the keys and the `all_kwargs()` of each config, or the heuristics by name.
pub data Layer : Type 0 where
  autotuner : (keys : List String) → (configs : List (Dict Value)) → Layer
  heuristics : (values : Dict Function) → Layer

-- A kernel: a `JITFunction`, a layer over a kernel, or anything else.
pub data Kernel : Type 0 where
  jit_function : List JitParam → Kernel
  layer : Layer → Kernel → Kernel
  unknown : Kernel

pub record TuningPlan : Type 0 where
  pub params : List JitParam
  pub layers : List Layer
  pub exact_keys : List String
  pub dependent : List Dependent
  pub computed : List Computed
  pub levels : ℕ

pub data TuningError : Type 0 where
  no_layer not_jit_function no_such_name : TuningError
  assigned_twice runtime_parameter reads_inner reads_unknown reads_itself : String → TuningError
  unreadable : HeuristicError → TuningError

-- An entry of `info`: whether C can key on the value exactly, its level, and the number of lookups
-- after which C can read it.
pub record Role : Type 0 where
  pub exact : Bool
  pub level : ℕ
  pub known : ℕ

-- The local variables of `analyze` that its loops change.
pub record Analysis : Type 0 where
  pub info : Dict Role
  pub assigned : List String
  pub exact_keys : List String
  pub dependent : List Dependent
  pub computed : List Computed

-- The `while is_chain(inner)` loop: the layers, outermost first, and what is inside.
unfoldable pub unwrap : Kernel → List Layer × Kernel
unwrap (layer l inner) = let (layers, innermost) = unwrap inner in (l ∷ layers, innermost)
unwrap k = ([], k)

abbrev pub names_of : List JitParam → List String
names_of params = map (λ p. p.name) params

-- The parameters that a call passes at run time.
unfoldable pub runtime_params : List JitParam → List JitParam
runtime_params [] = []
runtime_params (p ∷ rest) = if p.is_constexpr then runtime_params rest else p ∷ runtime_params rest

-- `name in params and not params[name].is_constexpr`
unfoldable pub is_runtime : List JitParam → String → Bool
is_runtime params name = contains (names_of (runtime_params params)) name

abbrev pub start_info : List String → List JitParam → Dict Role
start_info fixed params =
    map
      (λ p.
        (p.name, record { exact = p.is_constexpr || contains fixed p.name; level = 0; known = 0 }))
      params

-- The names that an autotuner's configs set, each once.
abbrev pub config_names : List (Dict Value) → List String
config_names configs = distinct_from [] (concat_map keys configs)

-- `assigns`
abbrev pub assigns : Layer → List String
assigns (autotuner _ configs) = config_names configs
assigns (heuristics values) = keys values

-- The names that the layers further inside assign.
abbrev pub inner_assigned : List Layer → List String
inner_assigned inside = concat_map assigns inside

-- `assign`, which returns the set with the name added.
unfoldable pub assign : List JitParam → String → List String → Result TuningError (List String)
assign params name assigned = do
  refuse (contains assigned name) (assigned_twice name)
  refuse (is_runtime params name) (runtime_parameter name)
  ok (assigned ++ name ∷ [])

abbrev pub find : {A : Type 0} → Option A → Result TuningError A
find none = err no_such_name
find (some a) = ok a

-- One key of an autotuner: `info[key]` becomes exact.
abbrev pub make_exact : String → Role → Analysis → Analysis
make_exact key role s = record s {
  info = insert key (record { exact = true; level = role.known; known = role.known }) s.info;
  exact_keys = s.exact_keys ++ key ∷ [];
}

unfoldable pub key_step : String → Role → Analysis → Analysis
key_step key role s = if role.exact then s else make_exact key role s

-- `info[key][1]` after the step
abbrev pub key_level : Role → ℕ
key_level role = if role.exact then role.level else role.known

-- The loop over `layer.keys`, with the level so far.
unfoldable pub key_loop :
    List JitParam
    → (inside : List String) → List String
    → ℕ
    → Analysis
    → Result TuningError (ℕ × Analysis)
key_loop params inside [] level s = ok (level, s)
key_loop params inside (key ∷ rest) level s =
    let go = (do
      refuse (contains inside key) (reads_inner key)
      role ← find (lookup key s.info)
      key_loop params inside rest (max level (key_level role)) (key_step key role s)) in
    let skip = key_loop params inside rest level s in
    if contains (names_of params) key then go else skip

abbrev pub add_dependent : String → ℕ → List String → Analysis → Analysis
add_dependent name level assigned s = record s {
  info = insert name (record { exact = true; level = level; known = level + 1 }) s.info;
  assigned = assigned;
  dependent = s.dependent ++ record { name = name; level = level } ∷ [];
}

abbrev pub add_computed : String → ℕ → Heuristic → List String → Analysis → Analysis
add_computed name level heuristic assigned s = record s {
  info = insert name (record { exact = true; level = level; known = level }) s.info;
  assigned = assigned;
  computed = s.computed ++ record { name = name; level = level; heuristic = heuristic } ∷ [];
}

-- The loop over the names that the configs set.
unfoldable pub name_loop : List JitParam → List String → ℕ → Analysis → Result TuningError Analysis
name_loop params [] level s = ok s
name_loop params (name ∷ rest) level s = do
  assigned ← assign params name s.assigned
  name_loop params rest level (add_dependent name level assigned s)

-- `if read not in info: raise`
abbrev pub require : String → Option Role → Result TuningError Role
require read none = err (reads_unknown read)
require read (some role) = ok role

-- The roles of what a heuristic reads.
unfoldable pub read_roles :
    (inside : List String) → Dict Role → List String → Result TuningError (List Role)
read_roles inside info [] = ok []
read_roles inside info (read ∷ rest) = do
  refuse (contains inside read) (reads_inner read)
  role ← require read (lookup read info)
  roles ← read_roles inside info rest
  ok (role ∷ roles)

abbrev pub lift : {A : Type 0} → Result HeuristicError A → Result TuningError A
lift (ok a) = ok a
lift (err e) = err (unreadable e)

-- A heuristic over exact values only is stored; any other is computed in C.
unfoldable pub place_heuristic : String → Heuristic → List Role → List String → Analysis → Analysis
place_heuristic name heuristic roles assigned s =
    if all (λ r. r.exact) roles
    then add_dependent name (max_of (map (λ r. r.level) roles)) assigned s
    else add_computed name (max_of (map (λ r. r.known) roles)) heuristic assigned s

-- One entry of `layer.values`.
unfoldable pub heuristic_step :
    List JitParam
    → (inside : List String) → String
    → Function
    → Analysis
    → Result TuningError Analysis
heuristic_step params inside name fn s = do
  heuristic ← lift (parse_heuristic name fn)
  roles ← read_roles inside s.info heuristic.inputs
  refuse (contains heuristic.inputs name) (reads_itself name)
  assigned ← assign params name s.assigned
  ok (place_heuristic name heuristic roles assigned s)

unfoldable pub value_loop :
    List JitParam → (inside : List String) → Dict Function → Analysis → Result TuningError Analysis
value_loop params inside [] s = ok s
value_loop params inside ((name, fn) ∷ rest) s = do
  s' ← heuristic_step params inside name fn s
  value_loop params inside rest s'

-- One round of the loop over the layers.
unfoldable pub layer_step :
    List JitParam → (inside : List String) → Layer → Analysis → Result TuningError Analysis
layer_step params inside (autotuner keys configs) s = do
  found ← key_loop params inside keys 0 s
  name_loop params (config_names configs) found.0 found.1
layer_step params inside (heuristics values) s = value_loop params inside values s

unfoldable pub layer_loop : List JitParam → List Layer → Analysis → Result TuningError Analysis
layer_loop params [] s = ok s
layer_loop params (l ∷ rest) s = do
  s' ← layer_step params (inner_assigned rest) l s
  layer_loop params rest s'

abbrev pub start : List String → List JitParam → Analysis
start fixed params = record {
  info = start_info fixed params;
  assigned = [];
  exact_keys = [];
  dependent = [];
  computed = [];
}

abbrev pub plan_of : List JitParam → List Layer → Analysis → TuningPlan
plan_of params layers s = record {
  params = params;
  layers = layers;
  exact_keys = s.exact_keys;
  dependent = s.dependent;
  computed = s.computed;
  levels = 1 + max_of (map (λ c. c.level) s.computed);
}

-- What `analyze` does with the layers and what they wrap.
unfoldable pub analyze_chain : List String → List Layer → Kernel → Result TuningError TuningPlan
analyze_chain fixed [] innermost = err no_layer
analyze_chain fixed (l ∷ layers) (jit_function params) = do
  s ← layer_loop params (l ∷ layers) (start fixed params)
  ok (plan_of params (l ∷ layers) s)
analyze_chain fixed (l ∷ layers) _ = err not_jit_function

-- `analyze`
unfoldable pub analyze : Kernel → (fixed : List String) → Result TuningError TuningPlan
analyze kernel fixed =
    let (layers, innermost) = unwrap kernel in analyze_chain fixed layers innermost
