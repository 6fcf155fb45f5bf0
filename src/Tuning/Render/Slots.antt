-- ===== src/Tuning/Render/Slots.antt =====
-- About tuning.py, `tuning_render`: the slots by level.
use intj.Prelude.{
  ℕ, zero, suc, ◌+◌, ◌≤◌, ◌<◌, String, ◌≡◌, refl, sym, subst, ◌∙◌, Bool, Option, none, some, List,
  [], ◌∷◌, map, length, All, range_from, sum, arith, ◌==◌, str_eq, eq_iff, if◌then◌else◌,
  Bool-cases, inl, inr, ok, refuse, after-eq-ok, some-inj, ok-inj, length-map,
}
use intj.Prelude.Dict.{Dict, lookup, insert, lookup-insert}
use intj.Prelude.Names.{distinct_from}
use intj.Prelude.Sort.{sort_by, sort_by-All, IsSortedBy, sort_by-IsSortedBy}
use intj.Annotation.{ResolvedParam}
use intj.Tuning.{Dependent, Computed, Kernel, TuningPlan, analyze, unwrap}
use intj.Tuning.Loops.{LayerReadsForward}
use intj.Tuning.Levels.{IsLevelled, analyze-IsLevelled}
use intj.Tuning.Render.{
  TuningRender, dict_of, dependent_levels, by_level, check_computed, wanted, grid_reads_computed,
  level_of, by_dependent_level, check_known, check_layers, count_levels, reads_computed, render_of,
  tuning_render,
}

-- What a dict finds is one of the entries that it was made of.
lookup_of_dict_of :
    (P : String × ℕ → Type 0) (entries : List (String × ℕ)) (m : Dict ℕ) (k : String) (v : ℕ)
    → All P entries
    → ((v : ℕ) → lookup k m ≡ some v → P (k, v))
    → lookup k (dict_of entries m) ≡ some v
    → P (k, v)
unfolding dict_of
lookup_of_dict_of P [] m k v h old e = old v e
lookup_of_dict_of P ((j, w) ∷ rest) m k v h old e =
    lookup_of_dict_of P rest (insert j w m) k v h.1
      (λ u found. elim (Bool-cases (str_eq j k)) [
        | inl hit ↦
            let same : w ≡ u = some-inj w u (sym (rw hit at (lookup-insert j k w m)) ∙ found) in
            subst P (λ i. ((eq_iff j k).0 hit i, same i)) h.0
        | inr miss ↦ old u (sym (rw miss at (lookup-insert j k w m)) ∙ found)
      ])
      e

pub dependent_levels-All :
    (P : String × ℕ → Type 0) (dependent : List Dependent) (k : String) (v : ℕ)
    → All (λ d. P (d.name, d.level)) dependent
    → lookup k (dependent_levels dependent) ≡ some v
    → P (k, v)
unfolding lookup
dependent_levels-All P dependent k v h e =
    lookup_of_dict_of P (map (λ d. (d.name, d.level)) dependent) [] k v (over-map dependent h)
      (λ u found. cc) e
  where
    over-map :
        (ds : List Dependent)
        → All (λ d. P (d.name, d.level)) ds
        → All P (map (λ d. (d.name, d.level)) ds)
    over-map [] h = tt
    over-map (d ∷ ds) h = (h.0, over-map ds h.1)

-- How often a level stands in a list of levels.
abbrev occurrences : ℕ → List ℕ → ℕ
occurrences x [] = 0
occurrences x (l ∷ ls) = (if x == l then 1 else 0) + occurrences x ls

occurrences-above : (x first count : ℕ) → x < first → occurrences x (range_from first count) ≡ 0
occurrences-above x first zero h = refl
occurrences-above x first (suc count) h =
    ground (arith, occurrences-above x (suc first) count (omega arith))

occurrences-range :
    (x first count : ℕ) → first ≤ x → x < first + count → occurrences x (range_from first count) ≡ 1
occurrences-range x first zero h k = absurd (omega arith)
occurrences-range x first (suc count) h k =
    ground (arith, occurrences-above x (suc first) count, occurrences-range x (suc first) count)

count_levels-cons :
    (x : ℕ) (xs levels : List ℕ)
    → sum (count_levels (x ∷ xs) levels) ≡ occurrences x levels + sum (count_levels xs levels)
unfolding count_levels
count_levels-cons x xs [] = refl
count_levels-cons x xs (l ∷ ls) = ground (arith, count_levels-cons x xs ls)

count_levels-nil : (levels : List ℕ) → sum (count_levels [] levels) ≡ 0
unfolding count_levels
count_levels-nil [] = refl
count_levels-nil (l ∷ ls) = omega (arith, count_levels-nil ls)

-- Levels that are all in the range are counted in full.
sum-count_levels :
    (count : ℕ) (xs : List ℕ)
    → All (λ l. l < count) xs
    → sum (count_levels xs (range_from 0 count)) ≡ length xs
sum-count_levels count [] h = count_levels-nil (range_from 0 count)
sum-count_levels count (x ∷ xs) h = omega (
  arith,
  count_levels-cons x xs (range_from 0 count),
  occurrences-range x 0 count (omega arith) (omega (arith, h.0)),
  sum-count_levels count xs h.1,
)

-- `tuning_render` sorts the plan's computed keys by level.
abbrev pub in_order : TuningPlan → List Computed
in_order plan = sort_by by_level plan.computed

-- Of a levelled plan every computed key and every dependent value that C reads has its slot: the
-- counts by level add up, and the slots go by level.
pub record IsSlotted (levels : Dict ℕ) (r : TuningRender) : Type 0 where
  pub computed : sum r.computed ≡ length r.computed_names
  pub deps : sum r.deps ≡ length r.dep_names
  pub level_major : IsSortedBy (by_dependent_level levels) r.dep_names

level_of-below :
    (plan : TuningPlan) (names : List String)
    → IsLevelled plan
    → All (λ l. l < plan.levels) (map (level_of (dependent_levels plan.dependent)) names)
level_of-below plan [] levelled = tt
level_of-below plan (n ∷ ns) levelled = (
  below (lookup n (dependent_levels plan.dependent)) (λ v found.
      dependent_levels-All (λ e. e.1 < plan.levels) plan.dependent n v levelled.dependent_in_range
        found),
  level_of-below plan ns levelled,
)
  where
    below :
        (o : Option ℕ)
        → ((v : ℕ) → o ≡ some v → v < plan.levels)
        → elim o [ none ↦ 0 | some level ↦ level ] < plan.levels
    below none h = levelled.some_level
    below (some v) h = h v refl

map-level-below :
    (bound : ℕ) (cs : List Computed)
    → All (λ c. c.level < bound) cs
    → All (λ l. l < bound) (map (λ c. c.level) cs)
map-level-below bound [] h = tt
map-level-below bound (c ∷ cs) h = (h.0, map-level-below bound cs h.1)

render_of-IsSlotted :
    (plan : TuningPlan) (resolved : List ResolvedParam) (names : List String) (grid_py : Bool)
    → IsLevelled plan
    → let levels = dependent_levels plan.dependent in
      IsSlotted levels (
        render_of plan resolved (in_order plan) (sort_by (by_dependent_level levels) names) grid_py)
render_of-IsSlotted plan resolved names grid_py levelled =
    let levels = dependent_levels plan.dependent in
    let dep_names = sort_by (by_dependent_level levels) names in
    record {
      computed =
          sum-count_levels plan.levels (map (λ c. c.level) (in_order plan)) (
            map-level-below plan.levels (in_order plan)
              (sort_by-All by_level _ plan.computed levelled.computed_in_range))
          ∙ length-map (λ c. c.level) (in_order plan)
          ∙ sym (length-map (λ c. c.name) (in_order plan));
      deps =
          sum-count_levels plan.levels (map (level_of levels) dep_names)
            (level_of-below plan dep_names levelled)
          ∙ length-map (level_of levels) dep_names;
      level_major =
          sort_by-IsSortedBy (by_dependent_level levels) (λ x y h. ground arith)
            (λ x y z h k. ground arith) names;
    }

tuning_render-eq-ok :
    (plan : TuningPlan) (resolved : List ResolvedParam) (grid_reads : List String) (grid_py : Bool)
    {r : TuningRender}
    → tuning_render plan resolved grid_reads grid_py ≡ ok r
    → (names : List String) × (render_of plan resolved
          (in_order plan)
          (sort_by (by_dependent_level (dependent_levels plan.dependent)) names)
          grid_py
        ≡ r)
unfolding tuning_render
tuning_render-eq-ok plan resolved grid_reads grid_py e =
    let levels = dependent_levels plan.dependent in
    let names = distinct_from [] (wanted plan levels (in_order plan) grid_reads) in
    let dep_names = sort_by (by_dependent_level levels) names in
    let first = after-eq-ok (check_computed levels (in_order plan)) _ e in
    let second =
      after-eq-ok (refuse (reads_computed grid_reads (in_order plan)) grid_reads_computed) _
        first in
    let third = after-eq-ok (check_known levels names) _ second in
    (names, ok-inj (after-eq-ok (check_layers dep_names plan.layers) _ third))

-- If no heuristic reads what a later entry of its own layer assigns, and `analyze` returns a plan that
-- `tuning_render` renders, then the counts by level add up to the slots, and the slots of the
-- dependent values go by level.
pub tuning_render-slots :
    (kernel : Kernel) (fixed : List String) (resolved : List ResolvedParam)
    (grid_reads : List String) (grid_py : Bool) (plan : TuningPlan) (r : TuningRender)
    → All LayerReadsForward (unwrap kernel).0
    → analyze kernel fixed ≡ ok plan
    → tuning_render plan resolved grid_reads grid_py ≡ ok r
    → IsSlotted (dependent_levels plan.dependent) r
tuning_render-slots kernel fixed resolved grid_reads grid_py plan r forward e rendered =
    let levelled = analyze-IsLevelled kernel fixed forward e in
    let (names, same) = tuning_render-eq-ok plan resolved grid_reads grid_py rendered in
    subst (IsSlotted (dependent_levels plan.dependent)) same
      (render_of-IsSlotted plan resolved names grid_py levelled)
