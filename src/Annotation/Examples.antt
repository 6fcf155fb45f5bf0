-- ===== src/Annotation/Examples.antt =====
-- A kernel with an unannotated pointer, a baked constexpr of several types, and an int that is baked
-- from the outside.
use intj.Prelude.{
  All, ℕ, ◌≡◌, refl, String, false, Option, none, some, List, [], ◌∷◌, Result, ok, err, ◌>>=◌, map,
}
use intj.Prelude.Dict.{lookup}
use intj.Prelude.Int.{pos}
use intj.Prelude.Names.{contains}
use intj.Prelude.Sort.{sort_by}
use intj.Values.{Value}
use intj.Annotation.Fixed.{IsCoherent}
use intj.Annotation.Coherent.{modes_in, ForArgument, merge_annotations-IsCoherent}
use intj.ScalarTypes.{
  argument, find_scalar, scalar_of, is_integer, narrowness, narrower, fits_scalar, fits,
}
use intj.Annotation.{
  Tag, equal_to_one, aligned_16, auto, never, assume, Mode, impossible_branch, AnnotationError,
  ResolvedParam, applicable,
}
use intj.Annotation.Types.{
  TypeValue, TypeField, float_name, dtype_name, type_name, type_names, distinct_names, sorted_types,
  canonical_types, inferred_scalar_type,
}
use intj.Annotation.Facts.{
  fact, Policy, assuming, Argument, Constexpr, check_facts, assume_all, specialization_modes,
}
use intj.Annotation.Merge.{
  RawAnnotation, empty, on_argument, on_constexpr, KernelParam, argument_of, annotation_source,
  merge_field, same_names, merge_given, merge_type, same_value, merge_modes, argument_modes,
  merge_constexpr, merge_argument, merge_sources,
}
use intj.Annotation.Bake.{
  canonical_value, narrowest, bake_constexpr, baked_type, bake_argument, bake, bit_count_from,
  bit_count, check_power, tag_of,
}
use intj.Annotation.Canonical.{
  check_dead, check_baked, check_bound, check_one_type, baked_one, baked_aligned, final_modes,
  check_argument, modes_of, canonical_annotation,
}
use intj.Annotation.Resolve.{
  read_annotation, read_inline, read_extra, merge_param, merge_params, merge_annotations,
}

-- Every declaration that unfolds it computes with the definitions named here.
program : Unit {0}
unfolding lookup contains sort_by find_scalar scalar_of is_integer narrowness narrower fits_scalar
    fits applicable float_name dtype_name type_name type_names distinct_names sorted_types
    canonical_types inferred_scalar_type check_facts assume_all specialization_modes
    annotation_source merge_field same_names merge_given merge_type same_value merge_modes
    argument_modes merge_constexpr merge_argument merge_sources canonical_value narrowest
    bake_constexpr baked_type bake_argument bake bit_count_from bit_count check_power tag_of
    check_dead check_baked check_bound check_one_type baked_one baked_aligned final_modes
    check_argument modes_of canonical_annotation read_annotation read_inline read_extra merge_param
    merge_params merge_annotations
program = tt

abbrev plain : String → RawAnnotation → KernelParam
plain name annotation = record {
  name = name;
  annotation = annotation;
  triton_type = none;
  is_constexpr = false;
  do_not_specialize = false;
  do_not_specialize_on_alignment = false;
}

-- `Constexpr(type=(tl.int64, tl.int32), value=48)`
abbrev block : Constexpr
block = record {
  type_field = TypeField.many (TypeValue.dtype "int64" ∷ TypeValue.dtype "int32" ∷ []);
  power_of_two_or_zero = false;
  value = some (Value.int (pos 48));
}

-- `Argument(type=tl.int32, specialize=policy, value=value)`
abbrev int_argument : Policy → ℕ → Argument
int_argument policy value = record (argument_of (TypeField.one (TypeValue.dtype "int32"))) {
  specialize = policy;
  value = some (Value.int (pos value));
}

abbrev kernel : List KernelParam
kernel = plain "x" empty ∷ plain "block" (on_constexpr block) ∷ plain "n" empty ∷ []

abbrev Summary : Type 0
Summary = Option (List (Option String)) × (Mode × (Mode × Mode))

abbrev summary : ResolvedParam → Summary
summary r = (
  r.annotation.types,
  (r.annotation.equal_to_one, (r.annotation.aligned_16, r.annotation.pointer_range_32)),
)

abbrev summaries : List ResolvedParam → Result AnnotationError (List Summary)
summaries resolved = ok (map summary resolved)

-- 48 is keyed as the narrowest type it fits; a baked int has the facts of its value.
merge-kernel :
    (merge_annotations [] kernel (("n", on_argument (int_argument Policy.unset 32)) ∷ [])
      >>= summaries)
    ≡ ok (
        (none, (auto, (auto, auto)))
        ∷ (some (some "i32" ∷ []), (auto, (auto, auto)))
        ∷ (some (some "i32" ∷ []), (never, (assume, auto)))
        ∷ [])
unfolding program
merge-kernel = refl

-- No value is 1 and a multiple of 16.
merge-impossible :
    (merge_annotations [] kernel (
        (
          "n",
          on_argument (
              int_argument
                (assuming (
                  fact equal_to_one (Value.int (pos 1))
                  ∷ fact aligned_16 (Value.int (pos 16))
                  ∷ []))
                1),
        )
        ∷ [])
      >>= summaries)
    ≡ err impossible_branch
unfolding program
merge-impossible = refl

-- `n : int` baked to 32 alone.
abbrev baked_kernel : List KernelParam
baked_kernel = plain "n" (on_argument (int_argument Policy.unset 32)) ∷ []

abbrev baked_n : ResolvedParam
baked_n = record {
  name = "n";
  index = 0;
  annotation = record {
    kind = argument;
    types = some (some "i32" ∷ []);
    equal_to_one = never;
    aligned_16 = assume;
    pointer_range_32 = auto;
    facts = (aligned_16, 16) ∷ [];
    power_of_two_or_zero = false;
    bind_value = none;
    baked_value = some (Tag.int (pos 32));
    key_fields = [];
    tuned = false;
    exact_key = false;
    triton_typed = false;
    tensor_only = false;
    none_ok = false;
    ptr_range = false;
  };
  baked = some (Value.int (pos 32));
}

merge-baked : merge_annotations [] baked_kernel [] ≡ ok (baked_n ∷ [])
unfolding program
merge-baked = refl

merge_annotations-IsCoherent_example :
    All
      (λ r.
        ForArgument r.annotation.kind
          (IsCoherent r.baked r.annotation.bind_value r.annotation.types (modes_in r.annotation)))
      (baked_n ∷ [])
merge_annotations-IsCoherent_example =
    merge_annotations-IsCoherent [] baked_kernel [] (baked_n ∷ []) merge-baked
