-- ===== src/Tuning/Render/Known.antt =====
-- About tuning.py, `tuning_render`: the names that it takes a level of.
use intj.Prelude.{
  ℕ, String, ◌≡◌, ◌≢◌, refl, ap, Bool, true, false, not, ◌||◌, List, [], ◌∷◌, map, length, filter,
  concat_map, All, All-append, All-mono, arith, ◌==◌, str_eq, eq_iff, Bool-cases, inl, inr, Result,
  ok, err, ◌>>◌, refuse, bind_ne,
}
use intj.Prelude.Dict.{Dict, lookup, insert, keys, lookup-insert}
use intj.Prelude.Names.{contains, contains-append, contains-All, distinct_from, distinct_from-All}
use intj.Prelude.Sort.{sort_by, All-of_sort_by}
use intj.Annotation.{is_some, ResolvedParam}
use intj.Tuning.{Dependent, Computed, TuningPlan}
use intj.Tuning.Render.{
  RenderError, read_before_known, no_such_dependent, grid_reads_computed, dict_of, dependent_levels,
  by_level, check_reads, check_computed, tuned_names, wanted, by_dependent_level, check_known,
  check_layers, reads_computed, tuning_render,
}
use intj.Tuning.Render.Scalars.{refuse-ne, check_layers-ne}
use intj.Tuning.Render.Slots.{in_order}

-- A name that has a level.
abbrev HasLevel : Dict ℕ → String → Type 0
HasLevel levels n = is_some (lookup n levels) ≡ true

dict_of-has :
    (entries : List (String × ℕ)) (m : Dict ℕ) (n : String)
    → contains (keys entries) n || is_some (lookup n m) ≡ true
    → HasLevel (dict_of entries m) n
unfolding dict_of contains
dict_of-has [] m n h = ground (arith, h)
dict_of-has ((k, v) ∷ rest) m n h =
    dict_of-has rest (insert k v m) n (rw (lookup-insert k n v m) (ground (arith, h)))

keys-dependent :
    (dependent : List Dependent) (n : String)
    → contains (keys (map (λ d. (d.name, d.level)) dependent)) n
      ≡ contains (map (λ d. d.name) dependent) n
unfolding contains
keys-dependent [] n = refl
keys-dependent (d ∷ ds) n = ap (λ b. str_eq d.name n || b) (keys-dependent ds n)

dependent_levels-has :
    (dependent : List Dependent) (n : String)
    → contains (map (λ d. d.name) dependent) n ≡ true
    → HasLevel (dependent_levels dependent) n
dependent_levels-has dependent n h =
    dict_of-has (map (λ d. (d.name, d.level)) dependent) [] n
      (ground (arith, keys-dependent dependent n, h))

-- A filtered list has only what passes.
filter-passes : (p : String → Bool) (xs : List String) → All (λ x. p x ≡ true) (filter p xs)
filter-passes p [] = tt
filter-passes p (x ∷ xs) = keep (p x) refl (filter-passes p xs)
  where
    keep :
        (kept : Bool)
        → p x ≡ kept
        → All (λ x. p x ≡ true) (filter p xs)
        → All (λ x. p x ≡ true) (elim kept [ true ↦ x ∷ filter p xs | false ↦ filter p xs ])
    keep true e rest = (e, rest)
    keep false e rest = rest

concat_map-All :
    (P : String → Type 0) (f : Computed → List String) (cs : List Computed)
    → ((c : Computed) → All P (f c))
    → All P (concat_map f cs)
concat_map-All P f [] h = tt
concat_map-All P f (c ∷ cs) h = All-append P (f c) (concat_map f cs) (h c) (concat_map-All P f cs h)

-- No computed key's name is read by the grid.
reads_computed-All :
    (grid_reads : List String) (cs : List Computed)
    → reads_computed grid_reads cs ≡ false
    → All (λ c. contains grid_reads c.name ≡ false) cs
reads_computed-All grid_reads [] h = tt
reads_computed-All grid_reads (c ∷ cs) h =
    split (contains grid_reads c.name) refl h (reads_computed-All grid_reads cs)
  where
    split :
        (read : Bool)
        → contains grid_reads c.name ≡ read
        → not (
            length (elim read [
              | true ↦ c.name ∷ filter (contains grid_reads) (map (λ c. c.name) cs)
              | false ↦ filter (contains grid_reads) (map (λ c. c.name) cs)
            ])
            == 0)
          ≡ false
        → (reads_computed grid_reads cs ≡ false → All (λ c. contains grid_reads c.name ≡ false) cs)
        → All (λ c. contains grid_reads c.name ≡ false) (c ∷ cs)
    split true e h rest = absurd (ground (arith, h))
    split false e h rest = (e, rest h)

-- A name that is there is in the list.
contains-filter :
    (p : String → Bool) (xs : List String) → All (λ x. contains xs x ≡ true) (filter p xs)
unfolding contains
contains-filter p [] = tt
contains-filter p (x ∷ xs) =
    keep (p x) (All-mono _ _ (filter p xs) (λ y h. ground (arith, h)) (contains-filter p xs))
  where
    keep :
        (kept : Bool)
        → All (λ y. contains (x ∷ xs) y ≡ true) (filter p xs)
        → All
            (λ y. contains (x ∷ xs) y ≡ true)
            (elim kept [ true ↦ x ∷ filter p xs | false ↦ filter p xs ])
    keep true rest = (ground (arith, eq_iff x x), rest)
    keep false rest = rest

All-both :
    (P Q : String → Type 0) (xs : List String) → All P xs → All Q xs → All (λ x. P x × Q x) xs
All-both P Q [] h k = tt
All-both P Q (x ∷ xs) h k = ((h.0, k.0), All-both P Q xs h.1 k.1)

module _ (plan : TuningPlan) (grid_reads : List String)
    (apart : reads_computed grid_reads (in_order plan) ≡ false) where
  -- A tuned name that the grid reads is a stored value's.
  grid-HasLevel :
      (n : String)
      → contains (tuned_names plan) n ≡ true
      → contains grid_reads n ≡ true
      → HasLevel (dependent_levels plan.dependent) n
  grid-HasLevel n tuned read =
      let splits =
        contains-append (map (λ d. d.name) plan.dependent) (map (λ c. c.name) plan.computed) n in
      let unread =
        All-of_sort_by by_level (λ c. contains grid_reads c.name ≡ false) plan.computed
          (reads_computed-All grid_reads (in_order plan) apart) in
      elim (Bool-cases (contains (map (λ c. c.name) plan.computed) n)) [
        | inl computed ↦ cc (
          read,
          contains-All (λ c. c.name) (λ k. contains grid_reads k ≡ false) plan.computed n unread
              computed,
        )
        | inr other ↦ dependent_levels-has plan.dependent n (ground (arith, splits, tuned, other))
      ]

  wanted-HasLevel :
      All
        (HasLevel (dependent_levels plan.dependent))
        (wanted plan (dependent_levels plan.dependent) (in_order plan) grid_reads)
  wanted-HasLevel =
      let levels = dependent_levels plan.dependent in
      All-append (HasLevel levels)
        (concat_map (λ c. filter (λ n. is_some (lookup n levels)) c.heuristic.inputs)
          (in_order plan))
        (filter (contains (tuned_names plan)) grid_reads)
        (concat_map-All (HasLevel levels)
          (λ c. filter (λ n. is_some (lookup n levels)) c.heuristic.inputs) (in_order plan)
          (λ c. filter-passes (λ n. is_some (lookup n levels)) c.heuristic.inputs))
        (All-mono _ _ (filter (contains (tuned_names plan)) grid_reads)
          (λ n h. grid-HasLevel n h.0 h.1)
          (All-both _ _ (filter (contains (tuned_names plan)) grid_reads)
            (filter-passes (contains (tuned_names plan)) grid_reads)
            (contains-filter (contains (tuned_names plan)) grid_reads)))

check_known-passes :
    (levels : Dict ℕ) (names : List String)
    → All (HasLevel levels) names
    → check_known levels names ≡ ok tt
unfolding check_known
check_known-passes levels [] h = refl
check_known-passes levels (n ∷ ns) h = rw (h.0) (check_known-passes levels ns h.1)

check_reads-ne :
    (levels : Dict ℕ) (name : String) (level : ℕ) (reads : List String)
    → check_reads levels name level reads ≢ err no_such_dependent
unfolding check_reads
check_reads-ne levels name level [] = λ p. cc
check_reads-ne levels name level (n ∷ ns) =
    bind_ne no_such_dependent (refuse _ (read_before_known name n)) _
      (refuse-ne no_such_dependent (λ n p. cc) _ (read_before_known name n) (λ p. cc))
      (λ _. check_reads-ne levels name level ns)

check_computed-ne :
    (levels : Dict ℕ) (cs : List Computed) → check_computed levels cs ≢ err no_such_dependent
unfolding check_computed
check_computed-ne levels [] = λ p. cc
check_computed-ne levels (c ∷ cs) =
    bind_ne no_such_dependent (check_reads levels c.name c.level c.heuristic.inputs) _
      (check_reads-ne levels c.name c.level c.heuristic.inputs) (λ _. check_computed-ne levels cs)

-- What comes after a refusal may use that the test failed.
after_refusal :
    {A : Type 0} (test : Bool) (e : RenderError) {next : Result RenderError A}
    → e ≢ no_such_dependent
    → (test ≡ false → next ≢ err no_such_dependent)
    → (refuse test e >> next) ≢ err no_such_dependent
after_refusal true e h k p = h (cc)
after_refusal false e h k p = k refl p

-- `tuning_render` never asks for the level of a name that is no dependent value: of any plan, the names
-- that C reads are stored values, and computed keys that the grid reads are refused before.
pub tuning_render-ne-no_such_dependent :
    (plan : TuningPlan) (resolved : List ResolvedParam) (grid_reads : List String) (grid_py : Bool)
    → tuning_render plan resolved grid_reads grid_py ≢ err no_such_dependent
unfolding tuning_render
tuning_render-ne-no_such_dependent plan resolved grid_reads grid_py =
    let levels = dependent_levels plan.dependent in
    let names = distinct_from [] (wanted plan levels (in_order plan) grid_reads) in
    let dep_names = sort_by (by_dependent_level levels) names in
    let bug = no_such_dependent in
    let clash = reads_computed grid_reads (in_order plan) in
    bind_ne bug (check_computed levels (in_order plan)) _ (check_computed-ne levels (in_order plan))
      λ _.
        after_refusal clash grid_reads_computed (λ p. cc)
          λ apart.
            bind_ne bug (check_known levels names) _
              (λ p. cc (
                p,
                check_known-passes levels names (
                    distinct_from-All (HasLevel levels) []
                      (wanted plan levels (in_order plan) grid_reads) tt
                      (wanted-HasLevel plan grid_reads apart)),
              ))
              λ _.
                bind_ne bug (check_layers dep_names plan.layers) _
                  (check_layers-ne bug (λ n p. cc) dep_names plan.layers) (λ _ p. cc)
