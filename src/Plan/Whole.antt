-- ===== src/Plan/Whole.antt =====
-- About plan.py, `build_plan`: what its checks are for.
use intj.Prelude.{
  ℕ, ◌≡◌, refl, sym, ◌∙◌, subst, ap, String, Bool, not, Option, none, some, List, [], ◌∷◌, ◌++◌,
  map, filter, length, All, Result, ok, err, ◌>>=◌, refuse-eq-ok, after-eq-ok, any, bind_elim,
  ok-inj, range_from, arith, if◌then◌else◌, Bool-cases, inl, inr,
}
use intj.Prelude.Dict.{Dict, keys}
use intj.Prelude.Names.{contains}
use intj.Annotation.{AnnotationError, DeviceBinding, ResolvedParam, is_some}
use intj.Annotation.Built.{IsBuilt}
use intj.Annotation.Resolve.{merge_annotations}
use intj.Annotation.Keyable.{merge_annotations-IsKeyable}
use intj.CompileOptions.{is_true}
use intj.Specialization.KeyFields.{LayoutError}
use intj.Specialization.KeyFields.Widths.{IsKeyable}
use intj.Specialization.Calls.{Param, call_layout}
use intj.Specialization.KeyLayout.{
  KeyLayout, memos, layout_of, computed_offsets, computed_key_fields, dynamic_fields, key_layout,
  param_fields,
}
use intj.Specialization.KeyLayout.Success.{key_layout-succeeds, call_layout_from-All}
use intj.Specialization.KeyLayout.Dynamic.{IsPlaced, key_layout-dynamic}
use intj.Specialization.Placing.{layout_fields}
use intj.Tuning.{Kernel, TuningPlan, analyze}
use intj.Tuning.Marking.{
  PlanError, needs_gpu, annotates_tuned, sets_tuned, several_ctas, lift_plan, fixed_names,
  check_unbound, has_ctas, config_options, plan_tuning, mark,
}
use intj.Tuning.Render.{RenderError, TuningRender, tuning_render, tuned_names}
use intj.Grid.Syntax.{Function}
use intj.Grid.Emit.{GridError}
use intj.Grid.Compile.{GridCode, compile_grid}
use intj.Plan.Doc.{Grid, object_grid, dims_grid, cpp_grid, py_grid}
use intj.Plan.Options.{BuildError, MakeLauncherOption, check_values}
use intj.Plan.Kernel.{
  checked_kernel, check_kernel, global_values, check_parameter_clash, check_positional,
}
use intj.Plan.Dynamic.{check_dynamic}
use intj.Plan.Bind.{Bound, bind}
use intj.Plan.Places.{place, bind-place}
use intj.Heuristics.{Heuristic}
use intj.Lowering.Emit.{LowerError}
use intj.Lowering.Whole.{Lowerable, LoweredHeuristic}
use intj.Plan.Sources.{lower_computed}
use intj.Plan.Build.{
  Failure, refused, from_annotations, from_chain, from_layout, as_failure, Surroundings,
  GivenKernel, sorted_options, annotate, render_chain, lower_chain, from_grid, from_rendering,
  from_lowering, no_level, dims_of, baked_values, grid_reads, grid_of, deps_of, first_computed,
  build_plan,
}

-- A chain raises what one of its steps raises, and a later step knows what the earlier ones returned.
bind_ne_eq :
    {A B : Type 0} (x : Failure) (m : Result Failure A) (f : A → Result Failure B)
    → ¬ (m ≡ err x)
    → ((a : A) → m ≡ ok a → ¬ (f a ≡ err x))
    → ¬ ((m >>= f) ≡ err x)
bind_ne_eq x (ok a) f h k = k a refl
bind_ne_eq x (err e) f h k = λ p. h (cc)

refused-ne :
    {A : Type 0} (e : LayoutError) (m : Result BuildError A)
    → ¬ (as_failure refused m ≡ err (from_layout e))
refused-ne e (ok a) = λ p. cc
refused-ne e (err b) = λ p. cc

-- A step of the option checks.
refused_step :
    {A B : Type 0} (e : LayoutError) (m : Result BuildError A) (f : A → Result Failure B)
    → ((a : A) → ¬ (f a ≡ err (from_layout e)))
    → ¬ ((as_failure refused m >>= f) ≡ err (from_layout e))
refused_step e (ok a) f h = h a
refused_step e (err b) f h = λ p. cc

pub as_failure-eq-ok :
    {E A : Type 0} (wrap : E → Failure) (m : Result E A) {a : A}
    → as_failure wrap m ≡ ok a
    → m ≡ ok a
as_failure-eq-ok wrap (ok a) h = ap ok (ok-inj h)
as_failure-eq-ok wrap (err e) h = cc

mark-IsKeyable :
    (plan : TuningPlan) (resolved : List ResolvedParam)
    → All (λ r. IsKeyable r.annotation) resolved
    → All (λ r. IsKeyable r.annotation) (map (mark plan) resolved)
mark-IsKeyable plan [] h = tt
mark-IsKeyable plan (r ∷ rest) h = (h.0, mark-IsKeyable plan rest h.1)

plan_tuning-IsKeyable :
    (layers : Kernel) (resolved : List ResolvedParam) (extra options : List String) (no_gpu : Bool)
    {out : TuningPlan × List ResolvedParam}
    → All (λ r. IsKeyable r.annotation) resolved
    → plan_tuning layers resolved extra options no_gpu ≡ ok out
    → All (λ r. IsKeyable r.annotation) out.1
unfolding plan_tuning
plan_tuning-IsKeyable layers resolved extra options no_gpu {out} h e =
    let e1 = (refuse-eq-ok no_gpu needs_gpu _ e).1 in
    bind_elim (lift_plan (analyze layers (fixed_names resolved))) _ e1 λ plan hplan e2.
      let e3 = after-eq-ok (check_unbound resolved) _ e2 in
      let e4 = (refuse-eq-ok (any (contains (tuned_names plan)) extra) annotates_tuned _ e3).1 in
      let e5 = (refuse-eq-ok (any (contains (tuned_names plan)) options) sets_tuned _ e4).1 in
      let e6 =
        (refuse-eq-ok (any has_ctas (config_options plan.layers resolved)) several_ctas _ e5).1 in
      subst (λ (z : TuningPlan × List ResolvedParam). All (λ r. IsKeyable r.annotation) z.1)
        (ok-inj e6) (mark-IsKeyable plan resolved h)

pub annotate-IsKeyable :
    (fp_types : List String) (k : GivenKernel) (options : List String) (no_gpu : Bool)
    {out : Option TuningPlan × List ResolvedParam}
    → All (λ p. IsBuilt p.annotation) k.params
    → All (λ e. IsBuilt e.1) k.extra_annotation
    → annotate fp_types k options no_gpu ≡ ok out
    → All (λ r. IsKeyable r.annotation) out.1
unfolding annotate
annotate-IsKeyable fp_types k options no_gpu {out} b c e =
    bind_elim (as_failure from_annotations (merge_annotations fp_types k.params k.extra_annotation))
      _ e
      λ resolved merged more.
        let keyable =
          merge_annotations-IsKeyable fp_types k.params k.extra_annotation b c
            (as_failure-eq-ok from_annotations _ merged) in
        by_layers k.layers resolved keyable more
  where
    by_layers :
        (layers : Option Kernel) (resolved : List ResolvedParam)
        → All (λ r. IsKeyable r.annotation) resolved
        → ◌≡◌ {A = Result Failure (Option TuningPlan × List ResolvedParam)}
            (elim layers [
              | none ↦ ok (none, resolved)
              | some chain ↦
                  as_failure from_chain
                    (plan_tuning chain resolved (keys k.extra_annotation) options no_gpu)
                  >>= λ planned. ok (some planned.0, planned.1)
            ])
            (ok out)
        → All (λ r. IsKeyable r.annotation) out.1
    by_layers none resolved keyable f =
        subst
          (λ (z : Option TuningPlan × List ResolvedParam). All (λ r. IsKeyable r.annotation) z.1)
          (ok-inj f) keyable
    by_layers (some chain) resolved keyable f =
        bind_elim
          (as_failure from_chain
            (plan_tuning chain resolved (keys k.extra_annotation) options no_gpu))
          _ f
          λ planned hp last.
            subst
              (λ (z : Option TuningPlan × List ResolvedParam).
                All (λ r. IsKeyable r.annotation) z.1)
              (ok-inj last)
              (plan_tuning-IsKeyable chain resolved (keys k.extra_annotation) options no_gpu keyable
                (as_failure-eq-ok from_chain _ hp))

-- Two calls with the same key fields and as many memos have layouts together, with the same slots.
key_layout-same :
    (c c' : List Param) (binding : DeviceBinding) (computed0 : ℕ) (dynamic : List String)
    {l : KeyLayout}
    → param_fields c' ≡ param_fields c
    → memos c' ≡ memos c
    → key_layout c binding computed0 dynamic ≡ ok l
    → (l' : KeyLayout) × (key_layout c' binding computed0 dynamic ≡ ok l')
      × (l'.dynamic ≡ l.dynamic)
unfolding key_layout
key_layout-same c c' binding computed0 dynamic {l} p m e =
    bind_elim (param_fields c) _ e λ fields hf more.
      let placement =
        layout_fields (fields ++ computed_key_fields computed0 ++ dynamic_fields computed0 dynamic)
          binding in
      bind_elim (computed_offsets placement.fields (range_from 0 computed0)) _ more
        λ offsets ho last. (
          layout_of c' computed0 dynamic placement offsets,
          rw (p, hf, ho) refl,
          rw m (ap (λ (z : KeyLayout). z.dynamic) (ok-inj last)),
        )

memo_count : List (String × ℕ × Option ℕ × Option ℕ) → ℕ
memo_count places = length (filter (λ q. is_some q.3) places)

memos-place : (call : List Param) → memos call ≡ memo_count (map place call)
unfolding memo_count
memos-place [] = refl
memos-place (p ∷ rest) = elim (Bool-cases (is_some p.memo)) [
  | inl e ↦ ground (arith, memos-place rest, e)
  | inr e ↦ ground (arith, memos-place rest, e)
]

-- After binding, the call has a key layout where the unbound call has one, with the same slots.
pub bind-key_layout :
    (s : Surroundings) (o : MakeLauncherOption) (resolved : List ResolvedParam) (b : Bound)
    (binding : DeviceBinding) (computed0 : ℕ) (dynamic : List String)
    → All (λ r. IsKeyable r.annotation) resolved
    → bind s.dtype_of o.bind_device o.bind_values resolved ≡ ok b
    → (l : KeyLayout) × (key_layout (call_layout b.params) binding computed0 dynamic ≡ ok l)
      × All IsPlaced l.dynamic
unfolding call_layout
bind-key_layout s o resolved b binding computed0 dynamic keyable e =
    let (places, fields, typed) = bind-place s.dtype_of o.bind_device o.bind_values resolved b e in
    let call_keyable = call_layout_from-All IsKeyable 0 0 resolved keyable in
    let (l, done) =
      key_layout-succeeds (call_layout resolved) binding computed0 dynamic call_keyable in
    let same_memos : memos (call_layout b.params) ≡ memos (call_layout resolved) =
      memos-place (call_layout b.params)
      ∙ ap memo_count places
      ∙ sym (memos-place (call_layout resolved)) in
    let (l', done', same) =
      key_layout-same (call_layout resolved) (call_layout b.params) binding computed0 dynamic fields
        same_memos done in
    let placed =
      key_layout-dynamic (call_layout resolved) binding computed0 dynamic l call_keyable done in
    (l', done', subst (All IsPlaced) (sym same) placed)

annotate-ne :
    (fp_types : List String) (k : GivenKernel) (options : List String) (no_gpu : Bool)
    (e : LayoutError)
    → ¬ (annotate fp_types k options no_gpu ≡ err (from_layout e))
unfolding annotate
annotate-ne fp_types k options no_gpu e =
    bind_ne_eq (from_layout e)
      (as_failure from_annotations (merge_annotations fp_types k.params k.extra_annotation)) _
      (λ p. wrapped (merge_annotations fp_types k.params k.extra_annotation) p)
      λ resolved _. by_layers k.layers resolved
  where
    wrapped :
        (m : Result AnnotationError (List ResolvedParam))
        → ¬ (as_failure from_annotations m ≡ err (from_layout e))
    wrapped (ok a) = λ p. cc
    wrapped (err b) = λ p. cc

    by_layers :
        (layers : Option Kernel) (resolved : List ResolvedParam)
        → ¬ (
            ◌≡◌ {A = Result Failure (Option TuningPlan × List ResolvedParam)}
              (elim layers [
                | none ↦ ok (none, resolved)
                | some chain ↦
                    as_failure from_chain
                      (plan_tuning chain resolved (keys k.extra_annotation) options no_gpu)
                    >>= λ planned. ok (some planned.0, planned.1)
              ])
              (err (from_layout e)))
    by_layers none resolved = λ p. cc
    by_layers (some chain) resolved =
        by_plan (plan_tuning chain resolved (keys k.extra_annotation) options no_gpu)
      where
        by_plan :
            (m : Result PlanError (TuningPlan × List ResolvedParam))
            → ¬ (
                ◌≡◌ {A = Result Failure (Option TuningPlan × List ResolvedParam)}
                  (as_failure from_chain m >>= λ planned. ok (some planned.0, planned.1))
                  (err (from_layout e)))
        by_plan (ok a) = λ p. cc
        by_plan (err b) = λ p. cc

render_chain-ne :
    (plan : Option TuningPlan) (resolved : List ResolvedParam) (o : MakeLauncherOption)
    (e : LayoutError)
    → ¬ (render_chain plan resolved o ≡ err (from_layout e))
unfolding render_chain
render_chain-ne none resolved o e = λ p. cc
render_chain-ne (some plan) resolved o e =
    by_render (tuning_render plan resolved (grid_reads o.grid_cpp) (is_some o.grid_py))
  where
    by_render :
        (m : Result RenderError TuningRender)
        → ¬ (
            ◌≡◌ {A = Result Failure (Option TuningRender)}
              (as_failure from_rendering m >>= λ render. ok (some render))
              (err (from_layout e)))
    by_render (ok a) = λ p. cc
    by_render (err b) = λ p. cc

lower_chain-ne :
    (lowerable : Heuristic → Lowerable) (plan : Option TuningPlan) (render : Option TuningRender)
    (resolved : List ResolvedParam) (call : List Param) (e : LayoutError)
    → ¬ (lower_chain lowerable plan render resolved call ≡ err (from_layout e))
unfolding lower_chain
lower_chain-ne lowerable none render resolved call e = λ p. cc
lower_chain-ne lowerable (some plan) none resolved call e = λ p. cc
lower_chain-ne lowerable (some plan) (some render) resolved call e =
    by_source (lower_computed lowerable plan resolved call render)
  where
    by_source :
        (m : Result LowerError (List (List LoweredHeuristic)))
        → ¬ (
            ◌≡◌ {A = Result Failure (Option (List (List LoweredHeuristic)))}
              (as_failure from_lowering m >>= λ source. ok (some source))
              (err (from_layout e)))
    by_source (ok a) = λ p. cc
    by_source (err b) = λ p. cc

grid_of-ne :
    (cdiv_unpatched : Bool) (o : MakeLauncherOption) (resolved : List ResolvedParam)
    (numbered : List Param) (deps : Option (Dict ℕ)) (ndynamic : ℕ) (e : LayoutError)
    → ¬ (grid_of cdiv_unpatched o resolved numbered deps ndynamic ≡ err (from_layout e))
unfolding grid_of
grid_of-ne cdiv_unpatched o resolved numbered deps ndynamic e = by_py o.grid_py
  where
    by_code :
        (m : Result GridError GridCode)
        → ¬ (
            ◌≡◌ {A = Result Failure Grid}
              (as_failure from_grid m >>= λ code. ok (cpp_grid code))
              (err (from_layout e)))
    by_code (ok a) = λ p. cc
    by_code (err b) = λ p. cc

    by_dims :
        (d : Option ℕ)
        → ¬ (
            ◌≡◌ {A = Result Failure Grid}
              (elim d [ none ↦ ok object_grid | some n ↦ ok (dims_grid n) ])
              (err (from_layout e)))
    by_dims none = λ p. cc
    by_dims (some n) = λ p. cc

    by_cpp :
        (f : Option Function)
        → ¬ (
            ◌≡◌ {A = Result Failure Grid}
              (elim f [
                | none ↦ elim (dims_of o.grid_arg) [
                  | none ↦ ok object_grid
                  | some n ↦ ok (dims_grid n)
                ]
                | some fn ↦
                    as_failure from_grid (
                      compile_grid cdiv_unpatched fn numbered (baked_values resolved) deps ndynamic)
                    >>= λ code. ok (cpp_grid code)
              ])
              (err (from_layout e)))
    by_cpp none = by_dims (dims_of o.grid_arg)
    by_cpp (some fn) =
        by_code (compile_grid cdiv_unpatched fn numbered (baked_values resolved) deps ndynamic)

    by_py :
        (c : Option Bool)
        → ¬ (
            ◌≡◌ {A = Result Failure Grid}
              (elim c [
                | some callable ↦ ok (py_grid [])
                | none ↦ elim o.grid_cpp [
                  | none ↦ elim (dims_of o.grid_arg) [
                    | none ↦ ok object_grid
                    | some n ↦ ok (dims_grid n)
                  ]
                  | some fn ↦
                      as_failure from_grid (
                        compile_grid cdiv_unpatched fn numbered
                          (baked_values resolved)
                          deps
                          ndynamic)
                      >>= λ code. ok (cpp_grid code)
                ]
              ])
              (err (from_layout e)))
    by_py (some callable) = λ p. cc
    by_py none = by_cpp o.grid_cpp

first_computed-ne :
    (render : Option TuningRender) (e : LayoutError)
    → ¬ (first_computed render ≡ err (from_layout e))
first_computed-ne none e = λ p. cc
first_computed-ne (some render) e = by_counts render.computed
  where
    by_counts :
        (counts : List ℕ)
        → ¬ (
            ◌≡◌ {A = Result Failure ℕ}
              (elim counts [ [] ↦ err no_level | n ∷ rest ↦ ok n ])
              (err (from_layout e)))
    by_counts [] = λ p. cc
    by_counts (n ∷ rest) = λ p. cc

-- Where `Constexpr` objects come from their constructor, `build_plan` never fails to lay the key out:
-- whatever the options, the chain and the bound values are, what the checks before let pass has a layout.
pub build_plan-ne-from_layout :
    (s : Surroundings) (o : MakeLauncherOption) (k : GivenKernel) (e : LayoutError)
    → All (λ p. IsBuilt p.annotation) k.params
    → All (λ x. IsBuilt x.1) k.extra_annotation
    → ¬ (build_plan s o k ≡ err (from_layout e))
unfolding build_plan
build_plan-ne-from_layout s o k e built extra_built =
    let options = keys (sorted_options o.options) in
    refused_step e (check_values o) _ λ declared.
      refused_step e (checked_kernel k.jit_func) _ λ jit.
        refused_step e (check_kernel jit options (is_true o.assume_constant_globals)) _ λ checked.
          refused_step e
            (if is_true o.assume_constant_globals then global_values checked.0 else ok []) _
            λ globals.
              bind_ne_eq (from_layout e) (annotate s.fp_types k options (is_true o.no_gpu)) _
                (annotate-ne s.fp_types k options (is_true o.no_gpu) e)
                λ annotated ha. refused_step e (check_positional checked.1) _ λ _.
                  refused_step e
                    (check_dynamic s.knob_attribute declared options
                      (map (λ p. (p.name, p.is_constexpr)) checked.1)
                      (elim annotated.0 [ none ↦ none | some tuned ↦ some (tuned_names tuned) ]))
                    _
                    λ _. refused_step e (check_parameter_clash options checked.1) _ λ _.
                      bind_ne_eq (from_layout e) (render_chain annotated.0 annotated.1 o) _
                        (render_chain-ne annotated.0 annotated.1 o e)
                        λ render _.
                          bind_ne_eq (from_layout e)
                            (lower_chain k.lowerable annotated.0 render annotated.1
                              (call_layout annotated.1))
                            _
                            (lower_chain-ne k.lowerable annotated.0 render annotated.1
                              (call_layout annotated.1) e)
                            λ source _.
                              bind_ne_eq (from_layout e)
                                (grid_of s.cdiv_unpatched o annotated.1 (call_layout annotated.1)
                                  (deps_of render) _)
                                _
                                (grid_of-ne s.cdiv_unpatched o annotated.1 (call_layout annotated.1)
                                  (deps_of render) _ e)
                                λ grid _. refused_step e s.resolve_access _ λ _.
                                  bind_ne_eq (from_layout e)
                                    (as_failure refused
                                      (bind s.dtype_of o.bind_device o.bind_values annotated.1))
                                    _
                                    (refused-ne e
                                      (bind s.dtype_of o.bind_device o.bind_values annotated.1))
                                    λ bound hb.
                                      bind_ne_eq (from_layout e) (first_computed render) _
                                        (first_computed-ne render e)
                                        λ computed0 _.
                                          let (l, laid, placed) =
                                            bind-key_layout s o annotated.1 bound
                                              bound.device_binding computed0
                                              (filter
                                                (λ n.
                                                  not (contains (map (λ p. p.name) checked.1) n))
                                                declared)
                                              (annotate-IsKeyable s.fp_types k options
                                                (is_true o.no_gpu) built extra_built ha)
                                              (as_failure-eq-ok refused _ hb) in
                                          rw laid (refused_step e s.provision _ λ _. λ p. cc)
