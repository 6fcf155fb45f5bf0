-- ===== src/Plan/Examples.antt =====
-- A kernel of one argument, with `num_warps` given in each call.
use intj.Prelude.{
  ◌≡◌, refl, String, true, false, Option, none, some, List, [], ◌∷◌, ◌++◌, map, length, All, Result,
  ok, err,
}
use intj.Prelude.Dict.{lookup, insert}
use intj.Prelude.Int.{pos}
use intj.Prelude.Names.{contains, distinct_from, IsDistinct}
use intj.Prelude.Sort.{insert_by, sort_by}
use intj.Values.{Value}
use intj.ScalarTypes.{
  argument, find_scalar, scalar_of, is_integer, narrowness, narrower, fits_scalar, fits, key_bytes,
}
use intj.Annotation.{
  BindValue, tensor, auto, DeviceBinding, CanonicalAnnotation, ResolvedParam, applicable,
}
use intj.Annotation.Types.{
  float_name, dtype_name, type_name, type_names, distinct_names, sorted_types, canonical_types,
  inferred_scalar_type,
}
use intj.Annotation.Facts.{check_facts, assume_all, specialization_modes}
use intj.Annotation.Merge.{
  empty, annotation_source, merge_field, same_names, merge_given, merge_type, same_value,
  merge_modes, argument_modes, merge_constexpr, merge_argument, merge_sources,
}
use intj.Annotation.Bake.{
  canonical_value, narrowest, bake_constexpr, baked_type, bake_argument, bake, bit_count_from,
  bit_count, check_power, tag_of,
}
use intj.Annotation.Canonical.{
  check_dead, check_baked, check_bound, check_one_type, baked_one, baked_aligned, final_modes,
  check_argument, modes_of, canonical_annotation,
}
use intj.Annotation.Resolve.{
  read_annotation, read_inline, read_extra, merge_param, merge_params, merge_annotations,
}
use intj.CompileOptions.{live_knobs}
use intj.Specialization.KeyFields.{
  not_placed, widest, constexpr_fields, argument_fields, cache_key_fields, object_capable,
}
use intj.Specialization.Placing.{assign_offsets, offset_at, layout_fields}
use intj.Specialization.Calls.{Param, call_layout_from, call_layout}
use intj.Specialization.KeyLayout.{param_fields, placed, computed_offsets, key_layout}
use intj.Plan.Options.{
  absent, mapping, sequence, MakeLauncherOption, check_flags, check_mapping, names_of_values,
  declared_names, check_values,
}
use intj.Plan.Kernel.{
  GlobalObject, member_name, canonical_object, GlobalValue, GlobalValues, Canonical, Canonicals,
  JitFunction, canonical_global, class_globals, canonical_entries, global_values, under_chain,
  checked_kernel, refuse_options, check_kernel, check_parameter_clash, check_positional,
}
use intj.Plan.Dynamic.{
  constexpr_at, split_dots, derived_options, is_given, is_knob, check_name, check_names,
  check_dynamic,
}
use intj.Plan.Bind.{
  Bound, check_device, str_items, bind_values_of, value_at, tensor_type, bind_tensor, bind_params,
  bound_values, hidden_values, bind,
}
use intj.Plan.Doc.{
  dims_grid, public_names, without_dots, dims_names, grid_names, free_name, add_controls,
  occupied_names, launch_names, launch_controls, join, launch_doc,
}
use intj.Plan.Build.{
  Failure, from_layout, Surroundings, GivenKernel, BuildPlan, Warning, str_keyed, sorted_options,
  slots_of, baked_values, grid_of, range_warnings, classes_of, warn_unverifiable, annotate,
  render_chain, lower_chain, class_list, build_plan,
}
use intj.Lowering.Emit.{Term}
use intj.Plan.Names.{launch_controls-IsDistinct}
use intj.Plan.Places.{place, is_typed, bind-place}
use intj.Plan.Whole.{build_plan-ne-from_layout}
use intj.Plan.Slots.{AreSlotted, build_plan-AreSlotted}

-- Every declaration that unfolds it computes with the definitions named here.
program : Unit {0}
unfolding lookup insert contains distinct_from insert_by sort_by find_scalar scalar_of is_integer
    narrowness narrower fits_scalar fits key_bytes applicable float_name dtype_name type_name
    type_names distinct_names sorted_types canonical_types inferred_scalar_type check_facts
    assume_all specialization_modes annotation_source merge_field same_names merge_given merge_type
    same_value merge_modes argument_modes merge_constexpr merge_argument merge_sources
    canonical_value narrowest bake_constexpr baked_type bake_argument bake bit_count_from bit_count
    check_power tag_of check_dead check_baked check_bound check_one_type baked_one baked_aligned
    final_modes check_argument modes_of canonical_annotation read_annotation read_inline read_extra
    merge_param merge_params merge_annotations live_knobs widest constexpr_fields argument_fields
    cache_key_fields object_capable assign_offsets offset_at layout_fields call_layout_from
    call_layout param_fields placed computed_offsets key_layout check_flags check_mapping
    names_of_values declared_names check_values canonical_global class_globals canonical_entries
    global_values under_chain checked_kernel refuse_options check_kernel check_parameter_clash
    check_positional constexpr_at split_dots derived_options is_given is_knob check_name check_names
    check_dynamic check_device str_items bind_values_of value_at tensor_type bind_tensor bind_params
    bound_values hidden_values bind public_names without_dots dims_names grid_names free_name
    add_controls launch_controls join launch_doc str_keyed sorted_options slots_of baked_values
    grid_of range_warnings classes_of warn_unverifiable annotate render_chain lower_chain class_list
    build_plan member_name canonical_object
program = tt

abbrev any_tensor : Option BindValue → CanonicalAnnotation
any_tensor bound = record {
  kind = argument;
  types = none;
  equal_to_one = auto;
  aligned_16 = auto;
  pointer_range_32 = auto;
  facts = [];
  power_of_two_or_zero = false;
  bind_value = bound;
  baked_value = none;
  key_fields = [];
  tuned = false;
  exact_key = false;
  triton_typed = false;
  tensor_only = true;
  none_ok = true;
  ptr_range = false;
}

abbrev tensors : Value → Option (Option String)
tensors (Value.object n) = some (some "fp32")
tensors _ = none

abbrev here : Surroundings
here = record {
  fp_types = [];
  dtype_of = tensors;
  knob_attribute = λ group attribute. true;
  cdiv_unpatched = true;
  read_knob = λ path. Value.null;
  resolve_access = ok tt;
  provision = ok tt;
}

abbrev option : MakeLauncherOption
option = record {
  no_gpu = Value.bool false;
  verify_annotation = Value.bool false;
  return_compiled = Value.bool false;
  assume_constant_globals = Value.bool false;
  ndebug = Value.bool true;
  extra_annotation = absent;
  options = mapping ((Value.str "num_stages", Value.int (pos 3)) ∷ []);
  kernel_cache = true;
  torch_access_mode = none;
  dynamic_options = sequence (Value.str "num_warps" ∷ []);
  grid_arg = Value.int (pos 2);
  grid_cpp = none;
  grid_py = none;
  bind_device = Value.null;
  bind_values = absent;
}

abbrev given : GivenKernel
given = record {
  jit_func =
      JitFunction.kernel false []
        (record { name = "n"; is_constexpr = false; is_positional = true } ∷ []);
  params =
      record {
        name = "n";
        annotation = empty;
        triton_type = none;
        is_constexpr = false;
        do_not_specialize = false;
        do_not_specialize_on_alignment = false;
      }
      ∷ [];
  extra_annotation = [];
  layers = none;
  lowerable =
      λ h. record { expr = Term.other_term; min_ok = true; max_ok = true; triton_ok = true };
}

-- The plan of a build that succeeds.
abbrev IsPlan : Result Failure BuildPlan → Type 0
IsPlan (ok b) = Unit
IsPlan (err e) = ⊥

built_plan : (r : Result Failure BuildPlan) → IsPlan r → BuildPlan
built_plan (ok b) h = b
built_plan (err e) h = absurd h

built_plan_lem : (r : Result Failure BuildPlan) (h : IsPlan r) → r ≡ ok (built_plan r h)
unfolding built_plan
built_plan_lem (ok b) h = refl
built_plan_lem (err e) h = absurd h

builds : IsPlan (build_plan here option given)
unfolding program
builds = tt

text :
    (built_plan (build_plan here option given) builds).doc
    ≡ "launch(device, stream, grid_x, grid_y, num_warps, n, /)\n--\n\n"
unfolding program built_plan builds
text = refl

build_plan-AreSlotted_example : AreSlotted (built_plan (build_plan here option given) builds)
build_plan-AreSlotted_example =
    build_plan-AreSlotted here option given (built_plan (build_plan here option given) builds)
      (tt, tt) tt (built_plan_lem (build_plan here option given) builds)

build_plan-ne-from_layout_example : ¬ (build_plan here option given ≡ err (from_layout not_placed))
build_plan-ne-from_layout_example =
    build_plan-ne-from_layout here option given not_placed (tt, tt) tt

-- A kernel parameter that is called `stream`, and a dynamic option that is called `device`.
abbrev clashing : List Param
clashing =
    record {
      name = "stream";
      index = 0;
      call_index = some 0;
      annotation = any_tensor none;
      memo = none;
    }
    ∷ []

renamed :
    launch_controls clashing false (dims_grid 1) ("device" ∷ [])
    ≡ "device_" ∷ "stream_" ∷ "grid_x" ∷ []
unfolding program
renamed = refl

launch_controls-IsDistinct_example :
    IsDistinct (launch_controls clashing false (dims_grid 1) ("device" ∷ []))
    × All
        (λ name. contains (occupied_names clashing (dims_grid 1) ("device" ∷ [])) name ≡ false)
        (launch_controls clashing false (dims_grid 1) ("device" ∷ []))
    × (length (launch_controls clashing false (dims_grid 1) ("device" ∷ []))
        ≡ length (launch_names false ++ grid_names (dims_grid 1)))
launch_controls-IsDistinct_example =
    launch_controls-IsDistinct clashing false (dims_grid 1) ("device" ∷ [])

abbrev two_tensors : List ResolvedParam
two_tensors =
    record { name = "x"; index = 0; annotation = any_tensor (some tensor); baked = none }
    ∷ record { name = "y"; index = 1; annotation = any_tensor none; baked = none }
    ∷ []

abbrev bound_x : Bound
bound_x = record {
  params =
      record {
        name = "x";
        index = 0;
        annotation = record (any_tensor (some tensor)) { types = some (some "*fp32" ∷ []) };
        baked = none;
      }
      ∷ record { name = "y"; index = 1; annotation = any_tensor none; baked = none }
      ∷ [];
  device_binding = DeviceBinding.fixed;
  args = Value.int (pos 1) ∷ Value.object 7 ∷ [];
  hidden = Value.object 7 ∷ [];
}

binds :
    bind tensors (Value.int (pos 1)) (mapping ((Value.str "x", Value.object 7) ∷ [])) two_tensors
    ≡ ok bound_x
unfolding program
binds = refl

bind-place_example :
    (map place (call_layout bound_x.params) ≡ map place (call_layout two_tensors))
    × (param_fields (call_layout bound_x.params) ≡ param_fields (call_layout two_tensors))
    × All (λ q. is_typed q.annotation ≡ true) bound_x.params
bind-place_example =
    bind-place tensors (Value.int (pos 1)) (mapping ((Value.str "x", Value.object 7) ∷ []))
      two_tensors bound_x binds

accepted :
    check_dynamic
      (λ g a. true)
      ("num_warps" ∷ "knobs.runtime.debug" ∷ [])
      ("num_stages" ∷ [])
      (("block", true) ∷ [])
      (some ("block" ∷ []))
    ≡ ok tt
unfolding program
accepted = refl

-- A member of an enum that is a copy, as Triton may record it: `==` to its live member, and another object.
abbrev copied_member : GlobalObject
copied_member = record {
  id = 9;
  type_id = 2;
  type_module = "gl";
  type_qualname = "Nan";
  members = some (("ALL", record { id = 5; type_id = 2; is_none = false; equals = true }) ∷ []);
  name = some "ALL";
  as_class = none;
  tag = none;
}

-- `Color`, a class of `lib`.
abbrev color_class : GlobalObject
color_class = record {
  id = 3;
  type_id = 1;
  type_module = "builtins";
  type_qualname = "type";
  members = none;
  name = none;
  as_class = some ("lib", "Color");
  tag = none;
}

-- `(tl.constexpr(Color), Nan.ALL, Color)`
abbrev triple_value : GlobalValue
triple_value = GlobalValue.items (
    GlobalValues.cons (GlobalValue.constexpr (GlobalValue.object color_class)) (
      GlobalValues.cons (GlobalValue.object copied_member)
        (GlobalValues.cons (GlobalValue.object color_class) GlobalValues.nil)))

abbrev triple_canonical : Canonical
triple_canonical = Canonical.items (
    Canonicals.cons (Canonical.constexpr (Canonical.class "lib" "Color")) (
      Canonicals.cons (Canonical.enum "gl" "Nan" "ALL")
        (Canonicals.cons (Canonical.class "lib" "Color") Canonicals.nil)))

canonical-triple : canonical_global triple_value ≡ some triple_canonical
unfolding program
canonical-triple = refl

-- One class is named once.
warn-triple :
    warn_unverifiable false [] (("pair", ("m", triple_canonical)) ∷ [])
    ≡ Warning.class_names ("lib.Color" ∷ []) ∷ []
unfolding program
warn-triple = refl
