-- ===== src/Annotation/Merge.antt =====
-- annotation.py: `_annotation_source`, `_merge_field` and `_merge_annotations`, which turns the two
-- annotations of each parameter into a canonical one. What `_tensor_annotation` says of an object or a
-- text, and what Triton's `str_to_ty` makes of an annotation, is part of the modelled object.
use intj.Prelude.{
  String, Bool, true, false, not, ◌&&◌, ◌||◌, Option, none, some, List, [], ◌∷◌, ◌==◌, Result, ok,
  err, ◌>>=◌, ◌>>◌, refuse, str_eq, if◌then◌else◌,
}
use intj.Prelude.Int.{eqb_ℤ}
use intj.Values.{Float, finite, infinite, nan, Value}
use intj.ScalarTypes.{ParamKind, argument, constexpr}
use intj.Annotation.{
  Mode, auto, never, assume, BindValue, tensor, pointer, AnnotationError, unsupported_annotation,
  conflict, conflicting_kind, value_and_bind_value, is_some,
}
use intj.Annotation.Types.{TypeValue, TypeField, canonical_types, same_name}
use intj.Annotation.Facts.{Argument, Constexpr, Policy, Modes, specialization_modes, every_mode}

-- What stands as a parameter's annotation. `tensor_like` is what `_tensor_annotation` reads as a
-- tensor's, optional or not; `text` is any other string.
pub data RawAnnotation : Type 0 where
  empty : RawAnnotation
  tensor_like : (optional : Bool) → RawAnnotation
  on_argument : Argument → RawAnnotation
  on_constexpr : Constexpr → RawAnnotation
  tl_constexpr : RawAnnotation
  int_class : RawAnnotation
  typed : TypeValue → RawAnnotation
  text : String → RawAnnotation
  other : RawAnnotation

-- What the merge reads of a Triton parameter: `triton_type` is the type of its `annotation_type`, if
-- that is not empty.
pub record KernelParam : Type 0 where
  pub name : String
  pub annotation : RawAnnotation
  pub triton_type : Option TypeValue
  pub is_constexpr : Bool
  pub do_not_specialize : Bool
  pub do_not_specialize_on_alignment : Bool

pub data Source : Type 0 where
  argument_source : Argument → Source
  constexpr_source : Constexpr → Source

-- `Argument(type=field)` and `Constexpr()`
abbrev pub argument_of : TypeField → Argument
argument_of field = record {
  type_field = field;
  specialize = Policy.unset;
  value = none;
  bind_value = none;
  ptr_range = false;
}

abbrev pub empty_constexpr : Constexpr
empty_constexpr = record {
  type_field = TypeField.unset;
  power_of_two_or_zero = false;
  value = none;
}

-- `_annotation_source`
unfoldable pub annotation_source : RawAnnotation → Result AnnotationError (Option Source)
annotation_source empty = ok none
annotation_source (on_argument a) = ok (some (argument_source a))
annotation_source (on_constexpr a) = ok (some (constexpr_source a))
annotation_source tl_constexpr = ok (some (constexpr_source empty_constexpr))
annotation_source int_class =
    ok (some (argument_source (argument_of (TypeField.one (TypeValue.dtype "int32")))))
annotation_source (text s) =
    if str_eq s "int"
    then ok (some (argument_source (argument_of (TypeField.one (TypeValue.dtype "int32")))))
    else err unsupported_annotation
annotation_source (typed TypeValue.null) =
    ok (some (argument_source (argument_of (TypeField.one TypeValue.null))))
annotation_source (typed (TypeValue.dtype name)) =
    ok (some (argument_source (argument_of (TypeField.one (TypeValue.dtype name)))))
annotation_source (typed (TypeValue.pointer is_global is_const item)) = ok (
    some
      (argument_source (argument_of (TypeField.one (TypeValue.pointer is_global is_const item)))))
annotation_source _ = err unsupported_annotation

-- `_merge_field` of a field whose values are compared by `same`.
unfoldable pub merge_field :
    {A : Type 0}
    → (same : A → A → Bool) → (field : String) → Option A
    → Option A
    → Result AnnotationError (Option A)
merge_field same field none right = ok right
merge_field same field (some a) none = ok (some a)
merge_field same field (some a) (some b) = if same a b then ok (some a) else err (conflict field)

unfoldable pub same_names : List (Option String) → List (Option String) → Bool
same_names [] [] = true
same_names (a ∷ as') (b ∷ bs) = same_name a b && same_names as' bs
same_names _ _ = false

abbrev pub same_types : Option (List (Option String)) → Option (List (Option String)) → Bool
same_types none none = true
same_types (some as') (some bs) = same_names as' bs
same_types _ _ = false

-- Two given types must have the same names.
unfoldable pub merge_given :
    (fp_types : List String) → ParamKind → TypeField → TypeField → Result AnnotationError TypeField
merge_given fp_types kind left right = do
  a ← canonical_types fp_types kind left
  b ← canonical_types fp_types kind right
  refuse (not (same_types a b)) (conflict "type")
  ok left

-- `_merge_field` of the `type` fields.
unfoldable pub merge_type :
    (fp_types : List String) → ParamKind → TypeField → TypeField → Result AnnotationError TypeField
merge_type fp_types kind TypeField.unset right = ok right
merge_type fp_types kind left TypeField.unset = ok left
merge_type fp_types kind left right = merge_given fp_types kind left right

abbrev pub same_bool : Bool → Bool → Bool
same_bool true b = b
same_bool false b = not b

-- `struct.pack(">d", a) == struct.pack(">d", b)`, where one nan stands for all.
abbrev pub same_float : Float → Float → Bool
same_float (finite s m) (finite t n) = same_bool s t && m == n
same_float (infinite s) (infinite t) = same_bool s t
same_float nan nan = true
same_float _ _ = false

-- Values of one type that are equal. Two objects are equal if they are one object.
unfoldable pub same_value : Value → Value → Bool
same_value Value.null Value.null = true
same_value (Value.bool a) (Value.bool b) = same_bool a b
same_value (Value.int a) (Value.int b) = eqb_ℤ a b
same_value (Value.float a) (Value.float b) = same_float a b
same_value (Value.str a) (Value.str b) = str_eq a b
same_value (Value.dtype a) (Value.dtype b) = str_eq a b
same_value (Value.jit m q k) (Value.jit n r l) = str_eq m n && (str_eq q r && str_eq k l)
same_value (Value.object a) (Value.object b) = a == b
same_value _ _ = false

abbrev pub same_mode : Mode → Mode → Bool
same_mode auto auto = true
same_mode never never = true
same_mode assume assume = true
same_mode _ _ = false

abbrev pub same_bind : BindValue → BindValue → Bool
same_bind tensor tensor = true
same_bind pointer pointer = true
same_bind _ _ = false

unfoldable pub merge_modes : Modes → Modes → Result AnnotationError Modes
merge_modes a b = do
  one ← merge_field same_mode "equal_to_one" a.equal_to_one b.equal_to_one
  aligned ← merge_field same_mode "aligned_16" a.aligned_16 b.aligned_16
  range ← merge_field same_mode "pointer_range_32" a.pointer_range_32 b.pointer_range_32
  ok (record { equal_to_one = one; aligned_16 = aligned; pointer_range_32 = range })

-- The modes with every one set.
pub record SetModes : Type 0 where
  pub equal_to_one : Mode
  pub aligned_16 : Mode
  pub pointer_range_32 : Mode

-- `"auto" if mode is UNSET else mode`
abbrev pub or_auto : Option Mode → Mode
or_auto none = auto
or_auto (some mode) = mode

-- `Triton's binder`: a Triton-typed parameter never folds 1 into a constexpr.
abbrev pub without_one : Bool → Mode → Mode
without_one true auto = never
without_one _ mode = mode

abbrev pub settle : Option TypeValue → Modes → SetModes
settle triton_type modes = record {
  equal_to_one = without_one (is_some triton_type) (or_auto modes.equal_to_one);
  aligned_16 = or_auto modes.aligned_16;
  pointer_range_32 = or_auto modes.pointer_range_32;
}

-- The modes of an argument, with what the decorator turns off.
unfoldable pub argument_modes : KernelParam → Policy → Policy → Result AnnotationError SetModes
argument_modes p left right = do
  a ← specialization_modes left
  b ← specialization_modes right
  merged ← merge_modes a b
  flagged ←
      (if p.do_not_specialize then merge_modes merged (every_mode (some never)) else ok merged)
  aligned ←
      (if p.do_not_specialize_on_alignment
        then merge_field same_mode "aligned_16" flagged.aligned_16 (some never)
        else ok flagged.aligned_16)
  ok (settle p.triton_type (record flagged { aligned_16 = aligned }))

-- The fields of both sources together.
pub record Merged : Type 0 where
  pub kind : ParamKind
  pub raw_type : TypeField
  pub baked : Option Value
  pub power : Bool
  pub modes : SetModes
  pub bind_value : Option BindValue
  pub ptr_range : Bool

unfoldable pub merge_constexpr :
    (fp_types : List String) → Constexpr → Constexpr → Result AnnotationError Merged
merge_constexpr fp_types left right = do
  raw_type ← merge_type fp_types constexpr left.type_field right.type_field
  baked ← merge_field same_value "value" left.value right.value
  ok (record {
    kind = constexpr;
    raw_type = raw_type;
    baked = baked;
    power = left.power_of_two_or_zero || right.power_of_two_or_zero;
    modes = record { equal_to_one = auto; aligned_16 = auto; pointer_range_32 = auto };
    bind_value = none;
    ptr_range = false;
  })

unfoldable pub merge_argument :
    (fp_types : List String) → KernelParam → Argument → Argument → Result AnnotationError Merged
merge_argument fp_types p left right = do
  raw_type ← merge_type fp_types argument left.type_field right.type_field
  baked ← merge_field same_value "value" left.value right.value
  bind_value ← merge_field same_bind "bind_value" left.bind_value right.bind_value
  refuse (is_some baked && is_some bind_value) value_and_bind_value
  modes ← argument_modes p left.specialize right.specialize
  ok (record {
    kind = argument;
    raw_type = raw_type;
    baked = baked;
    power = false;
    modes = modes;
    bind_value = bind_value;
    ptr_range = left.ptr_range || right.ptr_range;
  })

unfoldable pub merge_sources :
    (fp_types : List String)
    → KernelParam
    → Option Source
    → Option Source
    → Result AnnotationError Merged
merge_sources fp_types p none none =
    merge_argument fp_types p (argument_of TypeField.unset) (argument_of TypeField.unset)
merge_sources fp_types p (some (argument_source a)) none =
    merge_argument fp_types p a (argument_of TypeField.unset)
merge_sources fp_types p none (some (argument_source b)) =
    merge_argument fp_types p (argument_of TypeField.unset) b
merge_sources fp_types p (some (argument_source a)) (some (argument_source b)) =
    merge_argument fp_types p a b
merge_sources fp_types p (some (constexpr_source a)) none =
    merge_constexpr fp_types a empty_constexpr
merge_sources fp_types p none (some (constexpr_source b)) =
    merge_constexpr fp_types empty_constexpr b
merge_sources fp_types p (some (constexpr_source a)) (some (constexpr_source b)) =
    merge_constexpr fp_types a b
merge_sources fp_types p _ _ = err conflicting_kind
