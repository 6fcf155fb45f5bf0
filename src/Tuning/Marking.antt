-- ===== src/Tuning/Marking.antt =====
-- tuning.py: `plan_tuning`, which analyzes a chain and marks the parameters, with `_config_options` and
-- `check_tuned_configs`.
pub mod Apart
pub mod Disjoint
use intj.Prelude.{
  ℕ, ◌^◌, String, Bool, true, false, not, ◌&&◌, ◌||◌, Option, none, some, List, [], ◌∷◌, ◌++◌, map,
  any, filter, Result, ok, err, ◌>>=◌, ◌>>◌, refuse, ◌==◌,
}
use intj.Prelude.Dict.{Dict, get_or, keys}
use intj.Prelude.Int.{pos, eqb_ℤ}
use intj.Prelude.Names.{contains}
use intj.Values.{Value, finite}
use intj.Annotation.{is_some, ResolvedParam}
use intj.CompileOptions.{OptionError, resolve}
use intj.Tuning.{Layer, autotuner, heuristics, Kernel, TuningPlan, TuningError, analyze}
use intj.Tuning.Render.{tuned_names}

pub data PlanError : Type 0 where
  needs_gpu annotates_tuned sets_tuned several_ctas : PlanError
  bound_parameter : String → PlanError
  refused_chain : TuningError → PlanError

-- `_config_options`: the options of each config, which are its values that no parameter has the name of.
unfoldable pub layer_options : List String → Layer → List (Dict Value)
layer_options names (autotuner _ configs) =
    map (λ config. filter (λ e. not (contains names e.0)) config) configs
layer_options names (heuristics _) = []

unfoldable pub config_options : List Layer → List ResolvedParam → List (Dict Value)
config_options [] resolved = []
config_options (l ∷ rest) resolved =
    layer_options (map (λ p. p.name) resolved) l ++ config_options rest resolved

-- `value == 1`, as Python compares numbers.
abbrev pub equals_one : Value → Bool
equals_one (Value.int v) = eqb_ℤ v (pos 1)
equals_one (Value.bool b) = b
equals_one (Value.float (finite false magnitude)) = magnitude == 2 ^ 1074
equals_one _ = false

-- `config_options.get("num_ctas", 1) != 1`
abbrev pub has_ctas : Dict Value → Bool
has_ctas options = not (equals_one (get_or options "num_ctas" (Value.int (pos 1))))

abbrev pub lift_plan : {A : Type 0} → Result TuningError A → Result PlanError A
lift_plan (ok a) = ok a
lift_plan (err e) = err (refused_chain e)

unfoldable pub check_unbound : List ResolvedParam → Result PlanError (Unit {0})
check_unbound [] = ok tt
check_unbound (p ∷ rest) = do
  refuse (is_some p.annotation.bind_value) (bound_parameter p.name)
  check_unbound rest

-- The names of the baked parameters.
abbrev pub fixed_names : List ResolvedParam → List String
fixed_names resolved = map (λ p. p.name) (filter (λ p. is_some p.annotation.baked_value) resolved)

abbrev pub mark : TuningPlan → ResolvedParam → ResolvedParam
mark plan p = record p {
  annotation = record p.annotation {
    tuned = contains (tuned_names plan) p.name;
    exact_key = contains plan.exact_keys p.name;
  };
}

-- `plan_tuning`; the names are those of `extra_annotation` and of `options`.
unfoldable pub plan_tuning :
    Kernel
    → List ResolvedParam
    → (extra options : List String) → (no_gpu : Bool)
    → Result PlanError (TuningPlan × List ResolvedParam)
plan_tuning chain resolved extra options no_gpu = do
  refuse no_gpu needs_gpu
  plan ← lift_plan (analyze chain (fixed_names resolved))
  check_unbound resolved
  refuse (any (contains (tuned_names plan)) extra) annotates_tuned
  refuse (any (contains (tuned_names plan)) options) sets_tuned
  refuse (any has_ctas (config_options plan.layers resolved)) several_ctas
  ok (plan, map (mark plan) resolved)

-- `check_tuned_configs`
module _ {P : Type 0} (parse_options : Dict Value → Result OptionError P)
    (fields : P → List String) where
  unfoldable pub check_each :
      (attribute : String → Value)
      → (options knob_values : Dict Value) → List (Dict Value)
      → Result OptionError (Unit {0})
  check_each attribute options knob_values [] = ok tt
  check_each attribute options knob_values (config ∷ rest) = do
    resolve parse_options fields attribute options config knob_values >>= λ _. ok tt
    check_each attribute options knob_values rest

  unfoldable pub check_tuned_configs :
      (attribute : String → Value)
      → TuningPlan
      → List ResolvedParam
      → (options knob_values : Dict Value) → Result OptionError (Unit {0})
  check_tuned_configs attribute plan resolved options knob_values =
      check_each attribute options knob_values (config_options plan.layers resolved)
