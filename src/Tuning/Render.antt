-- ===== src/Tuning/Render.antt =====
-- tuning.py: `tuning_render`, the slots of the values that C reads, up to the C source that
-- heuristic.py's `lower` emits, and `c_scalar`.
pub mod Slots
pub mod Known
pub mod NoBug
pub mod Scalars
use intj.Prelude.{
  ℕ, zero, ◌+◌, ◌-◌, ◌^◌, max, String, Bool, true, false, not, ◌&&◌, ◌||◌, Option, none, some, List,
  [], ◌∷◌, ◌++◌, map, length, filter, concat_map, range_from, Result, ok, err, ◌>>=◌, ◌>>◌, refuse,
  leb, ◌==◌, if◌then◌else◌,
}
use intj.Prelude.Dict.{Dict, lookup, insert, keys}
use intj.Prelude.Int.{ℤ, pos, negate_ℕ, leb_ℤ, ltb_ℤ}
use intj.Prelude.Names.{contains, distinct_from}
use intj.Prelude.Sort.{sort_by}
use intj.Values.{Value}
use intj.Annotation.{ResolvedParam, is_some}
use intj.Tuning.{Dependent, Computed, Layer, autotuner, heuristics, TuningPlan}

pub data RenderError : Type 0 where
  read_before_known : (computed read : String) → RenderError
  grid_reads_computed no_such_dependent : RenderError
  not_a_c_scalar : String → RenderError

-- `TuningRender` without `computed_fields`, which the key layout places, and without `source`, which
-- `lower_computed` gives.
pub record TuningRender : Type 0 where
  pub levels : ℕ
  pub computed : List ℕ
  pub computed_names : List String
  pub deps : List ℕ
  pub dep_names : List String
  pub meta_names : List String

-- `c_scalar`
unfoldable pub c_scalar : String → Value → Result RenderError Value
c_scalar name (Value.bool b) = ok (Value.bool b)
c_scalar name (Value.int v) =
    if leb_ℤ (negate_ℕ (2 ^ 63)) v && ltb_ℤ v (pos (2 ^ 63))
    then ok (Value.int v)
    else err (not_a_c_scalar name)
c_scalar name _ = err (not_a_c_scalar name)

-- A dict comprehension: of two entries of one key the later one counts.
unfoldable pub dict_of {ℓ} : {V : Type ℓ} → List (String × V) → Dict V → Dict V
dict_of [] m = m
dict_of ((k, v) ∷ rest) m = dict_of rest (insert k v m)

-- `dependent_level`
abbrev pub dependent_levels : List Dependent → Dict ℕ
dependent_levels dependent = dict_of (map (λ d. (d.name, d.level)) dependent) []

abbrev pub by_level : Computed → Computed → Bool
by_level a b = leb a.level b.level

-- The first two loops: no computed key reads a dependent value of its level or above.
unfoldable pub check_reads : Dict ℕ → String → ℕ → List String → Result RenderError (Unit {0})
check_reads levels name level [] = ok tt
check_reads levels name level (n ∷ rest) = do
  refuse (elim (lookup n levels) [ none ↦ false | some at ↦ leb level at ])
      (read_before_known name n)
  check_reads levels name level rest

unfoldable pub check_computed : Dict ℕ → List Computed → Result RenderError (Unit {0})
check_computed levels [] = ok tt
check_computed levels (c ∷ rest) = do
  check_reads levels c.name c.level c.heuristic.inputs
  check_computed levels rest

abbrev pub tuned_names : TuningPlan → List String
tuned_names plan = map (λ d. d.name) plan.dependent ++ map (λ c. c.name) plan.computed

-- The names that C reads: the computed keys' reads of dependent values, then the grid's.
abbrev pub wanted : TuningPlan → Dict ℕ → List Computed → List String → List String
wanted plan levels computed grid_reads =
    concat_map (λ c. filter (λ n. is_some (lookup n levels)) c.heuristic.inputs) computed
    ++ filter (contains (tuned_names plan)) grid_reads

-- `dependent_level[n]`, for the names that have one.
abbrev pub level_of : Dict ℕ → String → ℕ
level_of levels n = elim (lookup n levels) [ none ↦ 0 | some level ↦ level ]

abbrev pub by_dependent_level : Dict ℕ → String → String → Bool
by_dependent_level levels a b = leb (level_of levels a) (level_of levels b)

unfoldable pub check_known : Dict ℕ → List String → Result RenderError (Unit {0})
check_known levels [] = ok tt
check_known levels (n ∷ rest) = do
  refuse (not (is_some (lookup n levels))) no_such_dependent
  check_known levels rest

-- `if name in dep_names: c_scalar(name, value)`
abbrev pub check_value : List String → String → Value → Result RenderError (Unit {0})
check_value dep_names name value =
    if contains dep_names name then c_scalar name value >>= (λ _. ok tt) else ok tt

unfoldable pub check_config : List String → Dict Value → Result RenderError (Unit {0})
check_config dep_names [] = ok tt
check_config dep_names ((name, value) ∷ rest) = do
  check_value dep_names name value
  check_config dep_names rest

unfoldable pub check_configs : List String → List (Dict Value) → Result RenderError (Unit {0})
check_configs dep_names [] = ok tt
check_configs dep_names (config ∷ rest) = do
  check_config dep_names config
  check_configs dep_names rest

unfoldable pub check_layers : List String → List Layer → Result RenderError (Unit {0})
check_layers dep_names [] = ok tt
check_layers dep_names (autotuner _ configs ∷ rest) = do
  check_configs dep_names configs
  check_layers dep_names rest
check_layers dep_names (heuristics _ ∷ rest) = check_layers dep_names rest

-- `tuple(sum(level_of(x) == level for x in xs) for level in range(levels))`
unfoldable pub count_levels : List ℕ → List ℕ → List ℕ
count_levels wanted levels = map (λ level. length (filter (λ l. l == level) wanted)) levels

-- `set(computed names) & set(grid_reads)` is not empty.
abbrev pub reads_computed : List String → List Computed → Bool
reads_computed grid_reads computed =
    not (length (filter (contains grid_reads) (map (λ c. c.name) computed)) == 0)

-- The value that `tuning_render` returns.
abbrev pub render_of :
    TuningPlan
    → List ResolvedParam
    → List Computed
    → (dep_names : List String) → (grid_py : Bool) → TuningRender
render_of plan resolved computed dep_names grid_py = record {
  levels = plan.levels;
  computed = count_levels (map (λ c. c.level) computed) (range_from 0 plan.levels);
  computed_names = map (λ c. c.name) computed;
  deps =
      count_levels (map (level_of (dependent_levels plan.dependent)) dep_names)
        (range_from 0 plan.levels);
  dep_names = dep_names;
  meta_names =
      if grid_py then map (λ p. p.name) (filter (λ p. p.annotation.tuned) resolved) else [];
}

unfoldable pub tuning_render :
    TuningPlan
    → List ResolvedParam
    → (grid_reads : List String) → (grid_py : Bool) → Result RenderError TuningRender
tuning_render plan resolved grid_reads grid_py = do
  let levels = dependent_levels plan.dependent
  let computed = sort_by by_level plan.computed
  check_computed levels computed
  refuse (reads_computed grid_reads computed) grid_reads_computed
  let names = distinct_from [] (wanted plan levels computed grid_reads)
  check_known levels names
  let dep_names = sort_by (by_dependent_level levels) names
  check_layers dep_names plan.layers
  ok (render_of plan resolved computed dep_names grid_py)
