-- ===== src/Plan/Sources.antt =====
-- tuning.py: the end of `tuning_render`, which lowers the heuristics of the computed keys.
use intj.Prelude.{
  ℕ, String, Option, none, some, List, [], ◌∷◌, map, Result, ok, err, ◌>>=◌, enumerate_from,
  if◌then◌else◌,
}
use intj.Prelude.Dict.{Dict, lookup, insert}
use intj.Prelude.Sort.{sort_by}
use intj.Values.{Value}
use intj.Annotation.{ResolvedParam, is_some}
use intj.Heuristics.{Heuristic}
use intj.Specialization.Calls.{Param}
use intj.Tuning.{TuningPlan}
use intj.Tuning.Render.{TuningRender, by_level}
use intj.Grid.Compile.{params_by_name}
use intj.Lowering.Emit.{Source, LowerError, no_source}
use intj.Lowering.Whole.{Lowerable, LoweredHeuristic, lower}

-- `value=p.baked`
abbrev baked_value_of : Option Value → Value
baked_value_of none = Value.null
baked_value_of (some v) = v

-- `by_name[p.name].call_index or 0`; `no_source` is the KeyError.
abbrev pub arg_source : Dict Param → String → Result LowerError Source
arg_source by_name name = elim (lookup name by_name) [
  | none ↦ err (no_source name)
  | some p ↦ elim p.call_index [ none ↦ ok (Source.arg 0) | some n ↦ ok (Source.arg n) ]
]

-- The loop over `resolved`.
unfoldable pub param_sources :
    Dict Param → List ResolvedParam → Dict Source → Result LowerError (Dict Source)
unfolding lookup insert
param_sources by_name [] sources = ok sources
param_sources by_name (p ∷ rest) sources =
    if is_some p.annotation.baked_value
    then param_sources by_name rest (insert p.name (Source.fixed (baked_value_of p.baked)) sources)
    else if p.annotation.tuned
    then param_sources by_name rest sources
    else arg_source by_name p.name >>= λ source.
        param_sources by_name rest (insert p.name source sources)

-- A loop over names and slots.
unfoldable pub slot_sources : (ℕ → Source) → List (ℕ × String) → Dict Source → Dict Source
unfolding insert
slot_sources kind [] sources = sources
slot_sources kind ((slot, name) ∷ rest) sources =
    slot_sources kind rest (insert name (kind slot) sources)

-- `sources`
unfoldable pub chain_sources :
    List ResolvedParam → List Param → TuningRender → Result LowerError (Dict Source)
unfolding param_sources slot_sources params_by_name
chain_sources resolved call render = do
  given ← param_sources (params_by_name call []) resolved []
  let with_deps = slot_sources Source.dep (enumerate_from 0 render.dep_names) given
  ok (slot_sources Source.comp (enumerate_from 0 render.computed_names) with_deps)

-- `source`: what `lower` gives for the computed keys, level-major.
unfoldable pub lower_computed :
    (lowerable : Heuristic → Lowerable)
    → TuningPlan
    → List ResolvedParam
    → List Param
    → TuningRender
    → Result LowerError (List (List LoweredHeuristic))
unfolding chain_sources sort_by
lower_computed lowerable plan resolved call render = do
  sources ← chain_sources resolved call render
  lower (map (λ c. (lowerable c.heuristic, c.level)) (sort_by by_level plan.computed)) sources
      plan.levels
