-- ===== src/Plan/Slots.antt =====
-- About plan.py, `build_plan`: the options that are given in each call.
use intj.Prelude.{
  ℕ, suc, ◌≡◌, refl, subst, ap, String, Bool, false, not, none, some, List, [], ◌∷◌, ◌++◌, map,
  filter, All, enumerate_from, range_from, Result, ok, err, ◌>>=◌, bind_elim, ok-inj, arith,
  if◌then◌else◌, Bool-cases, inl, inr,
}
use intj.Prelude.Dict.{keys}
use intj.Prelude.Names.{contains, IsDistinct}
use intj.Annotation.Built.{IsBuilt}
use intj.CompileOptions.{is_true}
use intj.Specialization.Calls.{Param, call_layout}
use intj.Specialization.Placing.{Entry, layout_fields}
use intj.Annotation.{DeviceBinding}
use intj.Specialization.KeyLayout.{
  KeyLayout, slot, param_fields, computed_offsets, computed_key_fields, dynamic_fields, key_layout,
}
use intj.Specialization.KeyLayout.Dynamic.{IsPlaced}
use intj.Tuning.Render.{tuned_names}
use intj.Plan.Options.{BuildError, MakeLauncherOption, check_values}
use intj.Plan.Kernel.{
  checked_kernel, check_kernel, global_values, check_parameter_clash, check_positional,
}
use intj.Plan.Dynamic.{check_dynamic, is_given}
use intj.Plan.Accepted.{check_dynamic-accepts}
use intj.Plan.Bind.{bind}
use intj.Plan.Build.{
  Failure, refused, as_failure, Surroundings, GivenKernel, BuildPlan, sorted_options, annotate,
  render_chain, lower_chain, grid_of, deps_of, first_computed, build_plan,
}
use intj.Plan.Whole.{annotate-IsKeyable, bind-key_layout}

All-filter :
    (P : String → Type 0) (test : String → Bool) (xs : List String)
    → All P xs
    → All P (filter test xs)
All-filter P test [] h = tt
All-filter P test (x ∷ xs) (h, hs) = elim (Bool-cases (test x)) [
  | inl e ↦ rw (e, filter) (h, All-filter P test xs hs)
  | inr e ↦ rw (e, filter) (All-filter P test xs hs)
]

contains-filter :
    (test : String → Bool) (xs : List String) (n : String)
    → contains xs n ≡ false
    → contains (filter test xs) n ≡ false
unfolding contains
contains-filter test [] n h = refl
contains-filter test (x ∷ xs) n h = elim (Bool-cases (test x)) [
  | inl e ↦ ground (arith, e, h, contains-filter test xs n)
  | inr e ↦ ground (arith, e, h, contains-filter test xs n)
]

IsDistinct-filter :
    (test : String → Bool) (xs : List String) → IsDistinct xs → IsDistinct (filter test xs)
IsDistinct-filter test [] d = tt
IsDistinct-filter test (x ∷ xs) (f, d) = elim (Bool-cases (test x)) [
  | inl e ↦ rw (e, filter) (contains-filter test xs x f, IsDistinct-filter test xs d)
  | inr e ↦ rw (e, filter) (IsDistinct-filter test xs d)
]

slots-name :
    (fields : List Entry) (computed0 memo : ℕ) (first : ℕ) (dynamic : List String)
    → map (λ d. d.name) (map (slot fields computed0 memo) (enumerate_from first dynamic)) ≡ dynamic
slots-name fields computed0 memo first [] = refl
slots-name fields computed0 memo first (n ∷ rest) =
    ap (λ t. n ∷ t) (slots-name fields computed0 memo (suc first) rest)

key_layout-names :
    (call : List Param) (binding : DeviceBinding) (computed0 : ℕ) (dynamic : List String)
    {l : KeyLayout}
    → key_layout call binding computed0 dynamic ≡ ok l
    → map (λ d. d.name) l.dynamic ≡ dynamic
unfolding key_layout
key_layout-names call binding computed0 dynamic {l} e =
    bind_elim (param_fields call) _ e λ fields hf more.
      bind_elim
        (computed_offsets
          (layout_fields
            (fields ++ computed_key_fields computed0 ++ dynamic_fields computed0 dynamic)
            binding).fields
          (range_from 0 computed0))
        _ more
        λ offsets ho last.
          subst (λ (z : KeyLayout). map (λ d. d.name) z.dynamic ≡ dynamic) (ok-inj last)
            (slots-name _ computed0 _ 0 dynamic)

refused_elim :
    {A B P : Type 0} (m : Result BuildError A) (f : A → Result Failure B) {b : B}
    → (as_failure refused m >>= f) ≡ ok b
    → ((a : A) → m ≡ ok a → f a ≡ ok b → P)
    → P
refused_elim (ok a) f h k = k a refl h
refused_elim (err e) f h k = cc

-- What a plan says of its dynamic options: each has a slot of its own in the key, with an offset for
-- the value and one for its kind, and no fixed option gives its value.
pub record AreSlotted (b : BuildPlan) : Type 0 where
  pub placed : All IsPlaced b.layout.dynamic
  pub named : map (λ d. d.name) b.layout.dynamic ≡ b.dynamic
  pub distinct : IsDistinct b.dynamic
  pub not_fixed : All (λ n. is_given (keys b.compile_options) n ≡ false) b.dynamic

-- Where `Constexpr` objects come from their constructor, the dynamic options of a plan are distinct, each
-- has a slot in the key with an offset for its value and one for its kind, and none is given in
-- `options` as well, nor the option that it feeds.
pub build_plan-AreSlotted :
    (s : Surroundings) (o : MakeLauncherOption) (k : GivenKernel) (b : BuildPlan)
    → All (λ p. IsBuilt p.annotation) k.params
    → All (λ x. IsBuilt x.1) k.extra_annotation
    → build_plan s o k ≡ ok b
    → AreSlotted b
unfolding build_plan
build_plan-AreSlotted s o k b built extra_built e =
    let options = keys (sorted_options o.options) in
    refused_elim (check_values o) _ e λ declared _ e.
      refused_elim (checked_kernel k.jit_func) _ e λ jit _ e.
        refused_elim (check_kernel jit options (is_true o.assume_constant_globals)) _ e
          λ checked _ e.
            refused_elim
              (if is_true o.assume_constant_globals then global_values checked.0 else ok []) _ e
              λ globals _ e.
                bind_elim (annotate s.fp_types k options (is_true o.no_gpu)) _ e λ annotated ha e.
                  refused_elim (check_positional checked.1) _ e λ _ _ e.
                    refused_elim
                      (check_dynamic s.knob_attribute declared options
                        (map (λ p. (p.name, p.is_constexpr)) checked.1)
                        (elim annotated.0 [ none ↦ none | some tuned ↦ some (tuned_names tuned) ]))
                      _ e
                      λ passed hd e.
                        refused_elim (check_parameter_clash options checked.1) _ e λ _ _ e.
                          bind_elim (render_chain annotated.0 annotated.1 o) _ e λ render _ e.
                            bind_elim
                              (lower_chain k.lowerable annotated.0 render annotated.1
                                (call_layout annotated.1))
                              _ e
                              λ source _ e.
                                bind_elim
                                  (grid_of s.cdiv_unpatched o annotated.1 (call_layout annotated.1)
                                    (deps_of render) _)
                                  _ e
                                  λ grid _ e. refused_elim s.resolve_access _ e λ _ _ e.
                                    refused_elim
                                      (bind s.dtype_of o.bind_device o.bind_values annotated.1) _ e
                                      λ bound hb e.
                                        bind_elim (first_computed render) _ e λ computed0 _ e.
                                          let is_dynamic : String → Bool =
                                            λ n. not (contains (map (λ p. p.name) checked.1) n) in
                                          let (l, laid, placed) =
                                            bind-key_layout s o annotated.1 bound
                                              bound.device_binding computed0
                                              (filter is_dynamic declared)
                                              (annotate-IsKeyable s.fp_types k options
                                                (is_true o.no_gpu) built extra_built ha)
                                              hb in
                                          let accepted =
                                            check_dynamic-accepts s.knob_attribute declared options
                                              (map (λ p. (p.name, p.is_constexpr)) checked.1)
                                              (elim annotated.0 [
                                                | none ↦ none
                                                | some tuned ↦ some (tuned_names tuned)
                                              ])
                                              hd in
                                          let e = rw laid at e in
                                          refused_elim s.provision _ e λ _ _ last.
                                            subst AreSlotted (ok-inj last) (record {
                                              placed = placed;
                                              named =
                                                  key_layout-names (call_layout bound.params)
                                                    bound.device_binding computed0
                                                    (filter is_dynamic declared) laid;
                                              distinct =
                                                  IsDistinct-filter is_dynamic declared accepted.0;
                                              not_fixed =
                                                  All-filter (λ n. is_given options n ≡ false)
                                                    is_dynamic declared accepted.1;
                                            })
