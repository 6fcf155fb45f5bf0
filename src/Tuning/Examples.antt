-- ===== src/Tuning/Examples.antt =====
-- The kernel `strided` of tests/test_tuning.py, and one whose heuristic reads what a later entry of its
-- own layer assigns.
use intj.Prelude.{
  none, ◌&&◌, ℕ, ◌≡◌, ◌≢◌, refl, String, Bool, true, false, some, List, [], ◌∷◌, All, ok, err,
}
use intj.Prelude.Dict.{lookup, insert, Dict}
use intj.Prelude.Int.{pos}
use intj.Prelude.Names.{contains, distinct_from}
use intj.Prelude.Sort.{sort_by}
use intj.Values.{Value}
use intj.Heuristics.{
  Expr, ident, text, subscript, other, nil, cons, lambda, Function, parse_heuristic, children,
  walk_from, walk, size, subscript_key, collect, uses, returned, read_node,
}
use intj.Tuning.{
  Computed, JitParam, Layer, autotuner, heuristics, Kernel, jit_function, layer, TuningPlan, unwrap,
  runtime_params, is_runtime, assign, key_step, key_loop, name_loop, read_roles, place_heuristic,
  heuristic_step, value_loop, layer_step, layer_loop, analyze_chain, analyze,
}
use intj.ScalarTypes.{ParamKind, argument, constexpr}
use intj.Annotation.{auto, CanonicalAnnotation, ResolvedParam}
use intj.Tuning.Marking.{layer_options, config_options, check_unbound, plan_tuning}
use intj.Tuning.Marking.Disjoint.{plan_tuning-disjoint}
use intj.Tuning.Loops.{LayerReadsForward}
use intj.Tuning.Levels.{IsLevelled, analyze-IsLevelled}
use intj.Tuning.Render.{
  no_such_dependent, read_before_known, TuningRender, c_scalar, dict_of, dependent_levels,
  check_reads, check_computed, check_known, check_config, check_configs, check_layers, count_levels,
  tuning_render,
}
use intj.Tuning.Render.Slots.{IsSlotted, tuning_render-slots}
use intj.Tuning.Render.Known.{tuning_render-ne-no_such_dependent}
use intj.Tuning.Render.NoBug.{tuning_render-ne-read_before_known}

-- Every declaration that unfolds it computes with the definitions named here.
program : Unit {0}
unfolding layer_options config_options check_unbound plan_tuning lookup insert contains
    distinct_from sort_by parse_heuristic children walk_from walk size subscript_key collect uses
    returned read_node unwrap runtime_params is_runtime assign key_step key_loop name_loop
    read_roles place_heuristic heuristic_step value_loop layer_step layer_loop analyze_chain analyze
    c_scalar dict_of check_reads check_computed check_known check_config check_configs check_layers
    count_levels tuning_render
program = tt

abbrev param : String → Bool → JitParam
param name is_constexpr = record { name = name; is_constexpr = is_constexpr }

-- `a[key]`
abbrev read : String → Expr
read key = subscript (ident "a") (text key)

-- A function of one parameter `a` that returns an expression.
abbrev lambda_of : Expr → Function
lambda_of body = record {
  is_function = true;
  freevars = [];
  argcount = 1;
  posonlyargcount = 0;
  kwonlyargcount = 0;
  has_varargs = false;
  has_defaults = false;
  node = some (lambda "a" body);
}

-- `a["stride"] % a["BLOCK"] == 0`
abbrev aligned : Expr
aligned = other "Compare" (
    cons (other "BinOp" (cons (read "stride") (cons (other "Mod" nil) (cons (read "BLOCK") nil))))
      (cons (other "Eq" nil) (cons (other "Constant" nil) nil)))

abbrev strided : List JitParam
strided =
    param "x" false
    ∷ param "N" false
    ∷ param "stride" false
    ∷ param "BLOCK" true
    ∷ param "ALIGNED" true
    ∷ []

abbrev block : ℕ → Dict Value
block n = ("BLOCK", Value.int (pos n)) ∷ []

abbrev tuner : Layer
tuner = autotuner ("N" ∷ []) (block 32 ∷ block 64 ∷ [])

abbrev aligns : Layer
aligns = heuristics (("ALIGNED", lambda_of aligned) ∷ [])

abbrev tuned_strided : Kernel
tuned_strided = layer tuner (layer aligns (jit_function strided))

abbrev aligned_key : Computed
aligned_key = record {
  name = "ALIGNED";
  level = 1;
  heuristic = record {
    name = "ALIGNED";
    inputs = "stride" ∷ "BLOCK" ∷ [];
    arg = "a";
    expr = aligned;
  };
}

abbrev strided_plan : TuningPlan
strided_plan = record {
  params = strided;
  layers = tuner ∷ aligns ∷ [];
  exact_keys = "N" ∷ [];
  dependent = record { name = "BLOCK"; level = 0 } ∷ [];
  computed = aligned_key ∷ [];
  levels = 2;
}

analyze-strided : analyze tuned_strided [] ≡ ok strided_plan
unfolding program
analyze-strided = refl

abbrev strided_render : TuningRender
strided_render = record {
  levels = 2;
  computed = 0 ∷ 1 ∷ [];
  computed_names = "ALIGNED" ∷ [];
  deps = 1 ∷ 0 ∷ [];
  dep_names = "BLOCK" ∷ [];
  meta_names = [];
}

render-strided : tuning_render strided_plan [] ("N" ∷ []) false ≡ ok strided_render
unfolding program
render-strided = refl

-- Behind the last entry of a layer nothing is assigned.
nothing_later : (reads : List String) → All (λ n. contains [] n ≡ false) reads
unfolding program
nothing_later [] = tt
nothing_later (n ∷ ns) = (refl, nothing_later ns)

forward : All LayerReadsForward (unwrap tuned_strided).0
unfolding program
forward = (tt, (((λ h e. nothing_later h.inputs), tt), tt))

analyze-IsLevelled_example : IsLevelled strided_plan
analyze-IsLevelled_example = analyze-IsLevelled tuned_strided [] forward analyze-strided

tuning_render-slots_example : IsSlotted (dependent_levels strided_plan.dependent) strided_render
tuning_render-slots_example =
    tuning_render-slots tuned_strided [] [] ("N" ∷ []) false strided_plan strided_render forward
      analyze-strided render-strided

tuning_render-ne-read_before_known_example :
    tuning_render strided_plan [] ("N" ∷ []) false ≢ err (read_before_known "ALIGNED" "BLOCK")
tuning_render-ne-read_before_known_example =
    tuning_render-ne-read_before_known tuned_strided [] [] ("N" ∷ []) false strided_plan "ALIGNED"
      "BLOCK" forward analyze-strided

-- Of one layer, `ALIGNED` reads `stride` and `BLOCK`, and a later entry assigns `BLOCK`.
abbrev late_block : Kernel
late_block =
    layer
      (heuristics
        (("ALIGNED", lambda_of aligned) ∷ ("BLOCK", lambda_of (other "Constant" nil)) ∷ []))
      (jit_function strided)

abbrev late_plan : TuningPlan
late_plan = record {
  params = strided;
  layers =
      heuristics (("ALIGNED", lambda_of aligned) ∷ ("BLOCK", lambda_of (other "Constant" nil)) ∷ [])
      ∷ [];
  exact_keys = [];
  dependent = record { name = "BLOCK"; level = 0 } ∷ [];
  computed = record aligned_key { level = 0 } ∷ [];
  levels = 1;
}

analyze-late_block : analyze late_block [] ≡ ok late_plan
unfolding program
analyze-late_block = refl

-- What the source calls a bug of its own is what the user gets.
render-late_block : tuning_render late_plan [] [] false ≡ err (read_before_known "ALIGNED" "BLOCK")
unfolding program
render-late_block = refl

-- The parameters of `strided` as they are annotated: nothing is fixed.
abbrev free : ParamKind → CanonicalAnnotation
free kind = record {
  kind = kind;
  types = none;
  equal_to_one = auto;
  aligned_16 = auto;
  pointer_range_32 = auto;
  facts = [];
  power_of_two_or_zero = false;
  bind_value = none;
  baked_value = none;
  key_fields = [];
  tuned = false;
  exact_key = false;
  triton_typed = false;
  tensor_only = false;
  none_ok = false;
  ptr_range = false;
}

abbrev resolved_as : String → ℕ → CanonicalAnnotation → ResolvedParam
resolved_as name index annotation = record {
  name = name;
  index = index;
  annotation = annotation;
  baked = none;
}

abbrev strided_params : List ResolvedParam
strided_params = resolved_as "N" 1 (free argument) ∷ resolved_as "BLOCK" 3 (free constexpr) ∷ []

abbrev marked : List ResolvedParam
marked =
    resolved_as "N" 1 (record (free argument) { exact_key = true })
    ∷ resolved_as "BLOCK" 3 (record (free constexpr) { tuned = true })
    ∷ []

plan-strided :
    plan_tuning tuned_strided strided_params [] ("num_warps" ∷ []) false ≡ ok (strided_plan, marked)
unfolding program
plan-strided = refl

plan_tuning-disjoint_example :
    All (λ p. p.annotation.tuned && p.annotation.exact_key ≡ false) marked
plan_tuning-disjoint_example =
    plan_tuning-disjoint tuned_strided strided_params [] ("num_warps" ∷ []) false strided_plan
      marked plan-strided

tuning_render-ne-no_such_dependent_example :
    tuning_render strided_plan [] ("N" ∷ "BLOCK" ∷ []) false ≢ err no_such_dependent
tuning_render-ne-no_such_dependent_example =
    tuning_render-ne-no_such_dependent strided_plan [] ("N" ∷ "BLOCK" ∷ []) false
