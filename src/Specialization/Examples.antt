-- ===== src/Specialization/Examples.antt =====
-- A call of a matmul-like kernel: a pointer, an integer, a value baked in, a typed and an untyped
-- constexpr.
use intj.Prelude.{
  ◌>>=◌, ℕ, ◌+◌, ◌*◌, ◌≤◌, ◌<◌, ◌≡◌, refl, String, true, false, Option, none, some, List, [], ◌∷◌,
  map, inl, inr, All, Result, ok,
}
use intj.Prelude.Int.{pos, negsuc}
use intj.Prelude.Sort.{sort_by}
use intj.ScalarTypes.{ParamKind, argument, constexpr, find_scalar, scalar_of, is_integer, key_bytes}
use intj.Prelude.Dict.{lookup}
use intj.Prelude.Names.{contains}
use intj.Annotation.Types.{
  TypeValue, TypeField, dtype_name, type_name, type_names, distinct_names, sorted_types,
  canonical_types,
}
use intj.Annotation.Facts.{specialization_modes}
use intj.Annotation.Merge.{
  RawAnnotation, empty, on_constexpr, KernelParam, annotation_source, merge_field, merge_type,
  merge_modes, argument_modes, merge_constexpr, merge_argument, merge_sources,
}
use intj.Annotation.Bake.{bake, check_power, tag_of}
use intj.Annotation.Canonical.{
  check_dead, check_bound, check_one_type, final_modes, check_argument, modes_of,
  canonical_annotation,
}
use intj.Annotation.Resolve.{
  read_annotation, read_inline, read_extra, merge_param, merge_params, merge_annotations,
}
use intj.Specialization.KeyLayout.Success.{merge_annotations-key_layout}
use intj.Annotation.{
  exact_kind, exact, ResolvedParam, auto, not_fixed, descriptor, payload, CanonicalAnnotation, Tag,
  unplaced, applicable,
}
use intj.Specialization.KeyFields.{
  LayoutError, widest, is_public, constexpr_fields, argument_fields, cache_key_fields,
  object_capable,
}
use intj.Specialization.Placing.{Entry, assign_offsets, offset_at, layout_fields}
use intj.Specialization.Placing.Coverage.{
  owners, one_if, total_width, layout_fields-tiles, nwords-bounds,
}
use intj.Specialization.Placing.Alignment.{IsAligned, layout_fields-IsAligned}
use intj.Specialization.Calls.{call_layout_from, call_layout, takes_objects}
use intj.Specialization.Calls.Numbering.{Numbers, call_layout-call_index, call_layout-memo}
use intj.Specialization.KeyLayout.{
  layout_of, KeyLayout, param_fields, placed, computed_offsets, key_layout,
}
use intj.Specialization.KeyFields.Separates.{cache_key_fields-separates}
use intj.Prelude.Int.{pos}
use intj.ScalarTypes.{fits, fits_scalar}
use intj.Annotation.{unplaced, descriptor, payload}

-- Every declaration that unfolds it computes with the definitions named here.
program : Unit {0}
unfolding find_scalar scalar_of is_integer fits fits_scalar key_bytes applicable widest
    constexpr_fields argument_fields cache_key_fields object_capable assign_offsets offset_at
    sort_by layout_fields call_layout_from call_layout param_fields placed computed_offsets
    key_layout
program = tt

-- An annotation of a kind over types, with nothing fixed.
abbrev annotated : ParamKind → Option (List (Option String)) → CanonicalAnnotation
annotated kind types = record {
  kind = kind;
  types = types;
  equal_to_one = auto;
  aligned_16 = auto;
  pointer_range_32 = auto;
  facts = [];
  power_of_two_or_zero = false;
  bind_value = none;
  baked_value = none;
  key_fields = [];
  tuned = false;
  exact_key = false;
  triton_typed = false;
  tensor_only = false;
  none_ok = false;
  ptr_range = false;
}

abbrev resolved_as : String → ℕ → CanonicalAnnotation → ResolvedParam
resolved_as name index annotation = record {
  name = name;
  index = index;
  annotation = annotation;
  baked = none;
}

abbrev parameters : List ResolvedParam
parameters =
    resolved_as "x" 0 (annotated argument (some (some "*fp32" ∷ [])))
    ∷ resolved_as "n" 1 (annotated argument none)
    ∷ resolved_as "scale" 2 (record (annotated constexpr none) { baked_value = some Tag.null })
    ∷ resolved_as "block" 3 (annotated constexpr (some (some "i32" ∷ some "i64" ∷ [])))
    ∷ resolved_as "flag" 4 (annotated constexpr none)
    ∷ []

abbrev fields : List Entry
fields =
    (pos 0, unplaced descriptor 1)
    ∷ (pos 1, unplaced descriptor 1)
    ∷ (pos 3, unplaced descriptor 1)
    ∷ (pos 3, unplaced payload 8)
    ∷ (pos 4, unplaced descriptor 1)
    ∷ (pos 4, unplaced payload 8)
    ∷ []

fields-parameters : param_fields (call_layout parameters) ≡ ok fields
unfolding program
fields-parameters = refl

abbrev words_of : KeyLayout → Result LayoutError (ℕ × List (ℕ × ℕ))
words_of k = ok (k.nwords, k.computed_fields)

-- The computed key and the dynamic value come behind the parameters, and the device slot last.
key_layout-words :
    (key_layout (call_layout parameters) not_fixed 1 ("num_warps" ∷ []) >>= words_of)
    ≡ ok (5, (16, 36) ∷ [])
unfolding program
key_layout-words = refl

layout_fields-tiles_example : owners 19 (layout_fields fields not_fixed).fields ≡ 1
unfolding program
layout_fields-tiles_example = layout_fields-tiles fields not_fixed 19

nwords-bounds_example :
    (total_width fields + one_if true ≤ 3 * 8) × (3 * 8 < total_width fields + one_if true + 8)
unfolding program
nwords-bounds_example = nwords-bounds fields not_fixed

layout_fields-IsAligned_example : All IsAligned (layout_fields fields not_fixed).fields
layout_fields-IsAligned_example = layout_fields-IsAligned fields not_fixed (
  inl refl,
  (inl refl, (inl refl, (inr (inr (inr refl)), (inl refl, (inr (inr (inr refl)), tt))))),
)

-- A constexpr of `i8` or `i64`: one descriptor byte, and eight bytes of payload.
cache_key_fields-separates_example : pos 300 ≡ pos 300
unfolding program
cache_key_fields-separates_example =
    cache_key_fields-separates (annotated constexpr (some (some "i8" ∷ some "i64" ∷ [])))
      (some "i8" ∷ []) [] "i64" (unplaced descriptor 1 ∷ unplaced payload 8 ∷ []) constexpr
      (pos 300) (pos 300) refl refl refl refl refl refl refl ((λ e. refl), ((λ e. refl), tt))

call_layout-call_index_example :
    Numbers is_public (map (λ p. p.call_index) (call_layout parameters)) 0 parameters
call_layout-call_index_example = call_layout-call_index parameters

call_layout-memo_example :
    Numbers takes_objects (map (λ p. p.memo) (call_layout parameters)) 0 parameters
call_layout-memo_example = call_layout-memo parameters

-- The definitions of the merge, likewise.
merging : Unit {0}
unfolding lookup contains sort_by applicable dtype_name type_name type_names distinct_names
    sorted_types canonical_types annotation_source merge_field merge_type argument_modes merge_modes
    specialization_modes merge_constexpr merge_argument merge_sources bake check_power tag_of
    check_dead check_bound check_one_type final_modes check_argument modes_of canonical_annotation
    read_annotation read_inline read_extra merge_param merge_params merge_annotations
merging = tt

abbrev plain : String → RawAnnotation → KernelParam
plain name annotation = record {
  name = name;
  annotation = annotation;
  triton_type = none;
  is_constexpr = false;
  do_not_specialize = false;
  do_not_specialize_on_alignment = false;
}

-- A kernel with a pointer and a constexpr of two types.
abbrev kernel : List KernelParam
kernel =
    plain "x" empty
    ∷ plain "block" (
        on_constexpr (record {
          type_field = TypeField.many (TypeValue.dtype "int64" ∷ TypeValue.dtype "int32" ∷ []);
          power_of_two_or_zero = false;
          value = none;
        }))
    ∷ []

abbrev merged : List ResolvedParam
merged =
    resolved_as "x" 0 (annotated argument none)
    ∷ resolved_as "block" 1 (annotated constexpr (some (some "i32" ∷ some "i64" ∷ [])))
    ∷ []

merge-kernel : merge_annotations [] kernel [] ≡ ok merged
unfolding merging is_integer scalar_of find_scalar
merge-kernel = refl

merge_annotations-key_layout_example :
    (layout : KeyLayout) × (key_layout (call_layout merged) not_fixed 1 ("num_warps" ∷ [])
      ≡ ok layout)
merge_annotations-key_layout_example =
    merge_annotations-key_layout [] kernel [] merged not_fixed 1 ("num_warps" ∷ []) (tt, (refl, tt))
      tt merge-kernel

-- The key of the merged kernel: no computed keys, one dynamic value.
abbrev merged_layout : Result LayoutError KeyLayout
merged_layout = key_layout (call_layout merged) not_fixed 0 ("num_warps" ∷ [])

abbrev merged_fields : List Entry
merged_fields =
    (pos 0, unplaced descriptor 1)
    ∷ (pos 1, unplaced descriptor 1)
    ∷ (pos 1, unplaced payload 8)
    ∷ (negsuc 0, unplaced exact_kind 1)
    ∷ (negsuc 0, unplaced exact 8)
    ∷ []

abbrev placed_layout : KeyLayout
placed_layout =
    layout_of (call_layout merged) 0 ("num_warps" ∷ []) (layout_fields merged_fields not_fixed) []

key_layout-merged : merged_layout ≡ ok placed_layout
unfolding program
key_layout-merged = refl
