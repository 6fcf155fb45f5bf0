-- ===== src/Plan/Build.antt =====
-- plan.py: `build_plan`, every check in the order of the code. What asks the machine is a part of
-- `Surroundings`: Triton's types and knobs, torch's tensors, the access mode and provisioning.
use Prim.Native.String.{◌++◌ as str_append}
use intj.Prelude.{
  ℕ, String, Bool, true, false, not, ◌&&◌, Option, none, some, List, [], ◌∷◌, ◌++◌, map, filter,
  length, Result, ok, err, ◌>>=◌, ◌>>◌, if◌then◌else◌, enumerate_from,
}
use intj.Prelude.Dict.{Dict, keys, insert}
use intj.Prelude.Int.{pos}
use intj.Prelude.Names.{contains, distinct_from}
use intj.Prelude.Sort.{sort_by}
use intj.Values.{Value}
use intj.ScalarTypes.{text_lt}
use intj.Annotation.{
  AnnotationError, BindValue, pointer, is_assume, DeviceBinding, ResolvedParam, is_some,
}
use intj.Annotation.Merge.{RawAnnotation, KernelParam}
use intj.Annotation.Resolve.{merge_annotations}
use intj.CompileOptions.{is_true, live_knobs, knobs}
use intj.Specialization.KeyFields.{LayoutError}
use intj.Specialization.Calls.{Param, call_layout}
use intj.Specialization.KeyLayout.{KeyLayout, key_layout}
use intj.Tuning.{Kernel, TuningPlan}
use intj.Tuning.Marking.{PlanError, plan_tuning}
use intj.Tuning.Render.{RenderError, TuningRender, tuned_names, tuning_render}
use intj.Heuristics.{Heuristic}
use intj.Lowering.Emit.{LowerError}
use intj.Lowering.Whole.{Lowerable, LoweredHeuristic}
use intj.Grid.Syntax.{Function}
use intj.Grid.Emit.{GridError}
use intj.Grid.Compile.{take, compile_grid}
use intj.Plan.Options.{
  BuildError, GivenMapping, absent, mapping, other_mapping, MakeLauncherOption, check_values,
}
use intj.Plan.Kernel.{
  JitFunction, class_globals, GlobalEntry, checked_kernel, check_kernel, global_values,
  check_parameter_clash, check_positional,
}
use intj.Plan.Dynamic.{check_dynamic}
use intj.Plan.Sources.{lower_computed}
use intj.Plan.Bind.{bind}
use intj.Plan.Doc.{Grid, object_grid, dims_grid, cpp_grid, py_grid, launch_doc}

-- What a build can fail with.
pub data Failure : Type 0 where
  refused : BuildError → Failure
  from_annotations : AnnotationError → Failure
  from_chain : PlanError → Failure
  from_rendering : RenderError → Failure
  from_lowering : LowerError → Failure
  from_grid : GridError → Failure
  from_layout : LayoutError → Failure
  no_level : Failure

abbrev pub as_failure {ℓ} :
    {E : Type 0} {A : Type ℓ} → (E → Failure) → Result E A → Result Failure A
as_failure wrap (ok a) = ok a
as_failure wrap (err e) = err (wrap e)

pub record Surroundings : Type 0 where
  pub fp_types : List String
  pub dtype_of : Value → Option (Option String)
  pub knob_attribute : String → String → Bool
  pub cdiv_unpatched : Bool
  pub read_knob : String → Value
  pub resolve_access : Result BuildError (Unit {0})
  pub provision : Result BuildError (Unit {0})

-- The kernel as it is given: its parameters with their annotations, the extra ones, its chain of autotune
-- and heuristics layers, if it has one, and each heuristic's expression as the emitter tells it apart.
pub record GivenKernel : Type 0 where
  pub jit_func : JitFunction
  pub params : List KernelParam
  pub extra_annotation : Dict RawAnnotation
  pub layers : Option Kernel
  pub lowerable : Heuristic → Lowerable

pub data Warning : Type 0 where
  unverifiable_range : (name : String) → Warning
  class_names : List String → Warning

pub record BuildPlan : Type 0 where
  pub tuned : Option (TuningPlan × TuningRender)
  pub source : Option (List (List LoweredHeuristic))
  pub params : List ResolvedParam
  pub layout : KeyLayout
  pub compile_options : List (String × Value)
  pub dynamic : List String
  pub declared_parameters : List String
  pub knob_values : Option (Dict Value)
  pub global_values : List GlobalEntry
  pub grid : Grid
  pub device_binding : DeviceBinding
  pub args : List Value
  pub doc : String
  pub warnings : List Warning

abbrev pub option_le : String × Value → String × Value → Bool
option_le a b = not (text_lt b.0 a.0)

unfoldable pub str_keyed : List (Value × Value) → List (String × Value)
str_keyed [] = []
str_keyed ((Value.str k, v) ∷ rest) = (k, v) ∷ str_keyed rest
str_keyed ((k, v) ∷ rest) = str_keyed rest

-- `dict(sorted((option.options or {}).items()))`, whose keys were checked.
unfoldable pub sorted_options : GivenMapping → List (String × Value)
unfolding str_keyed sort_by
sorted_options absent = []
sorted_options (mapping items) = sort_by option_le (str_keyed items)
sorted_options other_mapping = []

-- `{n: i for i, n in enumerate(render.dep_names)}`
unfoldable pub slots_of : List (ℕ × String) → Dict ℕ → Dict ℕ
slots_of [] d = d
slots_of ((i, n) ∷ rest) d = slots_of rest (insert n i d)

-- `{p.index: p.baked for p in resolved if p.annotation.baked_value}`
unfoldable pub baked_values : List ResolvedParam → List (ℕ × Value)
baked_values [] = []
baked_values (p ∷ rest) =
    let others = baked_values rest in
    if is_some p.annotation.baked_value
    then elim p.baked [ none ↦ others | some v ↦ (p.index, v) ∷ others ]
    else others

-- `grid_arg`, once it is one of 1, 2 and 3.
abbrev pub dims_of : Value → Option ℕ
dims_of (Value.int (pos n)) = some n
dims_of _ = none

-- `_grid`
unfoldable pub grid_of :
    (cdiv_unpatched : Bool)
    → MakeLauncherOption
    → List ResolvedParam
    → List Param
    → (deps : Option (Dict ℕ)) → (ndynamic : ℕ) → Result Failure Grid
unfolding baked_values compile_grid
grid_of cdiv_unpatched o resolved numbered deps ndynamic = elim o.grid_py [
  | some callable ↦ ok (py_grid [])
  | none ↦ elim o.grid_cpp [
    | none ↦ elim (dims_of o.grid_arg) [ none ↦ ok object_grid | some n ↦ ok (dims_grid n) ]
    | some fn ↦
        as_failure from_grid
          (compile_grid cdiv_unpatched fn numbered (baked_values resolved) deps ndynamic)
        >>= λ code. ok (cpp_grid code)
  ]
]

-- `dataclasses.replace(grid, hidden=hidden)`, in `"py"` mode.
abbrev pub with_hidden : List Value → Grid → Grid
with_hidden hidden (py_grid old) = py_grid hidden
with_hidden hidden grid = grid

-- `grid_code.co_varnames[: grid_code.co_argcount]`
abbrev pub grid_reads : Option Function → List String
grid_reads none = []
grid_reads (some fn) = take fn.argcount fn.varnames

abbrev pub is_pointer_bound : Option BindValue → Bool
is_pointer_bound (some pointer) = true
is_pointer_bound _ = false

unfoldable pub range_warnings : List ResolvedParam → List Warning
range_warnings [] = []
range_warnings (p ∷ rest) =
    let others = range_warnings rest in
    if is_pointer_bound p.annotation.bind_value && is_assume p.annotation.pointer_range_32
    then unverifiable_range p.name ∷ others
    else others

unfoldable pub classes_of : List GlobalEntry → List (String × String)
unfolding class_globals
classes_of [] = []
classes_of ((name, (scope, c)) ∷ rest) = class_globals c ++ classes_of rest

-- `".".join(c[1:])`
abbrev pub dotted : String × String → String
dotted c = str_append c.0 (str_append "." c.1)

-- The order of `sorted`.
abbrev pub class_le : String → String → Bool
class_le a b = not (text_lt b a)

-- `classes`: a set's elements in order.
unfoldable pub class_list : List GlobalEntry → List String
unfolding classes_of distinct_from sort_by
class_list entries = sort_by class_le (distinct_from [] (map dotted (classes_of entries)))

abbrev pub class_warnings : List String → List Warning
class_warnings [] = []
class_warnings (c ∷ rest) = class_names (c ∷ rest) ∷ []

-- `_warn_unverifiable`
unfoldable pub warn_unverifiable :
    (verify : Bool) → List ResolvedParam → List GlobalEntry → List Warning
unfolding range_warnings class_list
warn_unverifiable verify resolved entries =
    (if verify then range_warnings resolved else []) ++ class_warnings (class_list entries)

-- `_annotate`, before its loop over the parameters' kinds.
unfoldable pub annotate :
    List String
    → GivenKernel
    → (options : List String) → (no_gpu : Bool)
    → Result Failure (Option TuningPlan × List ResolvedParam)
unfolding merge_annotations plan_tuning
annotate fp_types k options no_gpu = do
  resolved ← as_failure from_annotations (merge_annotations fp_types k.params k.extra_annotation)
  elim k.layers [
    | none ↦ ok (none, resolved)
    | some layers ↦
        as_failure from_chain (plan_tuning layers resolved (keys k.extra_annotation) options no_gpu)
        >>= λ planned. ok (some planned.0, planned.1)
  ]

-- `tuning_render`, where there is a chain.
unfoldable pub render_chain :
    Option TuningPlan
    → List ResolvedParam
    → MakeLauncherOption
    → Result Failure (Option TuningRender)
unfolding tuning_render
render_chain none resolved o = ok none
render_chain (some plan) resolved o =
    as_failure from_rendering
      (tuning_render plan resolved (grid_reads o.grid_cpp) (is_some o.grid_py))
    >>= λ render. ok (some render)

-- The C source of the heuristics, where there is a chain.
unfoldable pub lower_chain :
    (lowerable : Heuristic → Lowerable)
    → Option TuningPlan
    → Option TuningRender
    → List ResolvedParam
    → List Param
    → Result Failure (Option (List (List LoweredHeuristic)))
unfolding lower_computed
lower_chain lowerable (some plan) (some render) resolved call =
    as_failure from_lowering (lower_computed lowerable plan resolved call render) >>= λ source.
    ok (some source)
lower_chain lowerable (some plan) none resolved call = ok none
lower_chain lowerable none render resolved call = ok none

abbrev pub deps_of : Option TuningRender → Option (Dict ℕ)
deps_of none = none
deps_of (some render) = some (slots_of (enumerate_from 0 render.dep_names) [])

-- `render.computed[0] if render is not None else 0`
abbrev pub first_computed : Option TuningRender → Result Failure ℕ
first_computed none = ok 0
first_computed (some render) = elim render.computed [ [] ↦ err no_level | n ∷ rest ↦ ok n ]

abbrev pub paired : Option TuningPlan → Option TuningRender → Option (TuningPlan × TuningRender)
paired (some p) (some r) = some (p, r)
paired _ _ = none

abbrev pub is_fixed : DeviceBinding → Bool
is_fixed DeviceBinding.fixed = true
is_fixed DeviceBinding.not_fixed = false

-- `build_plan`
unfoldable pub build_plan :
    Surroundings → MakeLauncherOption → GivenKernel → Result Failure BuildPlan
unfolding check_values checked_kernel sorted_options check_kernel global_values annotate
    check_positional check_dynamic check_parameter_clash call_layout render_chain lower_chain
    slots_of grid_of warn_unverifiable bind key_layout launch_doc live_knobs
build_plan s o k = do
  declared ← as_failure refused (check_values o)
  jit ← as_failure refused (checked_kernel k.jit_func)
  let options = sorted_options o.options
  (used, jit_params) ←
      as_failure refused (check_kernel jit (keys options) (is_true o.assume_constant_globals))
  globals ←
      as_failure refused (if is_true o.assume_constant_globals then global_values used else ok [])
  (plan, resolved) ← annotate s.fp_types k (keys options) (is_true o.no_gpu)
  as_failure refused (check_positional jit_params)
  as_failure refused (
      check_dynamic s.knob_attribute declared (keys options)
        (map (λ p. (p.name, p.is_constexpr)) jit_params)
        (elim plan [ none ↦ none | some tuned ↦ some (tuned_names tuned) ]))
  let names = map (λ p. p.name) jit_params
  let dynamic = filter (λ n. not (contains names n)) declared
  as_failure refused (check_parameter_clash (keys options) jit_params)
  let numbered = call_layout resolved
  render ← render_chain plan resolved o
  source ← lower_chain k.lowerable plan render resolved numbered
  grid ← grid_of s.cdiv_unpatched o resolved numbered (deps_of render) (length dynamic)
  as_failure refused s.resolve_access
  bound ← as_failure refused (bind s.dtype_of o.bind_device o.bind_values resolved)
  computed0 ← first_computed render
  layout ←
      as_failure from_layout
        (key_layout (call_layout bound.params) bound.device_binding computed0 dynamic)
  let full_grid = with_hidden bound.hidden grid
  as_failure refused s.provision
  ok (record {
    tuned = paired plan render;
    source = source;
    params = bound.params;
    layout = layout;
    compile_options = options;
    dynamic = dynamic;
    declared_parameters = filter (contains names) declared;
    knob_values =
        if is_true o.no_gpu
        then none
        else some (filter (λ e. not (contains dynamic e.0)) (live_knobs s.read_knob knobs []));
    global_values = globals;
    grid = full_grid;
    device_binding = bound.device_binding;
    args = bound.args;
    doc = launch_doc layout.params (is_fixed bound.device_binding) full_grid dynamic;
    warnings = warn_unverifiable (is_true o.verify_annotation) resolved globals;
  })
