-- ===== src/Tuning/Render/NoBug.antt =====
-- About tuning.py, `tuning_render`: its check of the levels of `analyze`.
use intj.Prelude.{
  ℕ, ◌<◌, String, ◌≡◌, ◌≢◌, refl, Bool, not, some, List, [], ◌∷◌, All, All-mono, arith,
  Option-cases, inl, inr, ok, err, refuse, bind_ne,
}
use intj.Prelude.Dict.{Dict, lookup}
use intj.Prelude.Names.{distinct_from}
use intj.Prelude.Sort.{sort_by, sort_by-All}
use intj.Annotation.{ResolvedParam, is_some}
use intj.Tuning.{Computed, Kernel, TuningPlan, analyze, unwrap}
use intj.Tuning.Loops.{LayerReadsForward}
use intj.Tuning.Levels.{IsLevelled, analyze-IsLevelled}
use intj.Tuning.Render.Scalars.{refuse-ne, check_layers-ne}
use intj.Tuning.Render.Slots.{dependent_levels-All, in_order}
use intj.Tuning.Render.{
  RenderError, read_before_known, dependent_levels, by_level, check_reads, check_computed, wanted,
  no_such_dependent, grid_reads_computed, by_dependent_level, check_known, check_layers,
  reads_computed, tuning_render,
}

module _ (levels : Dict ℕ) where
  -- The first loops pass where every dependent read is of a lower level.
  abbrev Lower : ℕ → String → Type 0
  Lower level n = (v : ℕ) → lookup n levels ≡ some v → v < level

  check_reads-passes :
      (name : String) (level : ℕ) (reads : List String)
      → All (Lower level) reads
      → check_reads levels name level reads ≡ ok tt
  unfolding check_reads
  check_reads-passes name level [] h = refl
  check_reads-passes name level (n ∷ ns) h = elim (Option-cases (lookup n levels)) [
    | inl absent ↦ ground (arith, absent, check_reads-passes name level ns h.1)
    | inr (v, found) ↦ ground (arith, found, h.0 v found, check_reads-passes name level ns h.1)
  ]

  check_computed-passes :
      (cs : List Computed)
      → All (λ c. All (Lower c.level) c.heuristic.inputs) cs
      → check_computed levels cs ≡ ok tt
  unfolding check_computed
  check_computed-passes [] h = refl
  check_computed-passes (c ∷ cs) h =
      rw (check_reads-passes c.name c.level c.heuristic.inputs h.0) (check_computed-passes cs h.1)

module _ (plan : TuningPlan) (levelled : IsLevelled plan) where
  reads-Lower :
      All
        (λ c. All (Lower (dependent_levels plan.dependent) c.level) c.heuristic.inputs)
        plan.computed
  reads-Lower =
      All-mono _ _ plan.computed
        (λ c. All-mono _ _ c.heuristic.inputs (λ n below v found.
          dependent_levels-All (λ e. e.0 ≡ n → e.1 < c.level) plan.dependent n v below found refl))
        levelled.reads_below

  check_computed-levelled : check_computed (dependent_levels plan.dependent) (in_order plan) ≡ ok tt
  check_computed-levelled =
      check_computed-passes (dependent_levels plan.dependent) (in_order plan)
        (sort_by-All by_level _ plan.computed reads-Lower)

module _ (a b : String) where
  abbrev bug : RenderError
  bug = read_before_known a b

  check_known-ne : (levels : Dict ℕ) (names : List String) → check_known levels names ≢ err bug
  unfolding check_known
  check_known-ne levels [] = λ p. cc
  check_known-ne levels (n ∷ ns) =
      bind_ne bug (refuse (not (is_some (lookup n levels))) no_such_dependent) _
        (refuse-ne bug (λ n p. cc) (not (is_some (lookup n levels))) no_such_dependent (λ p. cc))
        (λ _. check_known-ne levels ns)

-- If no heuristic reads what a later entry of its own layer assigns, `tuning_render` never reports that
-- a plan of `analyze` reads a value before it is known.
pub tuning_render-ne-read_before_known :
    (kernel : Kernel) (fixed : List String) (resolved : List ResolvedParam)
    (grid_reads : List String) (grid_py : Bool) (plan : TuningPlan) (computed read : String)
    → All LayerReadsForward (unwrap kernel).0
    → analyze kernel fixed ≡ ok plan
    → tuning_render plan resolved grid_reads grid_py ≢ err (read_before_known computed read)
unfolding tuning_render
tuning_render-ne-read_before_known kernel fixed resolved grid_reads grid_py plan a b forward e =
    let levels = dependent_levels plan.dependent in
    let passes = check_computed-levelled plan (analyze-IsLevelled kernel fixed forward e) in
    let names = distinct_from [] (wanted plan levels (in_order plan) grid_reads) in
    let dep_names = sort_by (by_dependent_level levels) names in
    let clash = reads_computed grid_reads (in_order plan) in
    bind_ne (bug a b) (check_computed levels (in_order plan)) _ (λ p. cc (passes))
      λ _.
        bind_ne (bug a b) (refuse clash grid_reads_computed) _
          (refuse-ne (bug a b) (λ n p. cc) clash grid_reads_computed (λ p. cc))
          λ _. bind_ne (bug a b) (check_known levels names) _ (check_known-ne a b levels names) λ _.
            bind_ne (bug a b) (check_layers dep_names plan.layers) _
              (check_layers-ne (bug a b) (λ n p. cc) dep_names plan.layers) (λ _ p. cc)
