-- ===== src/Annotation/Canonical.antt =====
-- annotation.py: the end of `_merge_annotations`: which merged annotations are refused, and the
-- canonical annotation of the others.
use intj.Prelude.{
  ◌%◌, String, Bool, true, false, not, ◌&&◌, ◌||◌, Option, none, some, List, [], ◌∷◌, map, any, all,
  filter, length, ◌==◌, Result, ok, ◌>>=◌, ◌>>◌, refuse, if◌then◌else◌,
}
use intj.Prelude.Int.{pos, eqb_ℤ, abs}
use intj.Values.{Value}
use intj.ScalarTypes.{is_argument, is_integer}
use intj.Annotation.{
  FactName, equal_to_one, aligned_16, pointer_range_32, Mode, never, assume, is_auto, is_assume,
  is_never, BindValue, tensor, pointer, AnnotationError, tensor_clash, power_needs_integer,
  dead_fact, violates_fact, dead_ptr_range, impossible_branch, pointer_needs_one_type,
  tensor_needs_pointer, needs_one_type, auto_with_bound, is_some, CanonicalAnnotation, applicable,
}
use intj.Annotation.Types.{TypeValue, TypeField, canonical_types}
use intj.Annotation.Facts.{fact_amount}
use intj.Annotation.Merge.{SetModes, Merged}
use intj.Annotation.Bake.{is_pointer_type, bake, check_power, tag_of}

abbrev pub fact_names : List FactName
fact_names = equal_to_one ∷ aligned_16 ∷ pointer_range_32 ∷ []

-- `modes[_FACT_NAMES.index(field)]`
abbrev pub set_mode_of : SetModes → FactName → Mode
set_mode_of modes equal_to_one = modes.equal_to_one
set_mode_of modes aligned_16 = modes.aligned_16
set_mode_of modes pointer_range_32 = modes.pointer_range_32

-- The names of `assumed`, whose amounts follow from them.
abbrev pub assumed : SetModes → List FactName
assumed modes = filter (λ field. is_assume (set_mode_of modes field)) fact_names

-- `types if types is not None else ("i32", "*fp32")`
abbrev pub branches_of : Option (List (Option String)) → List (Option String)
branches_of none = some "i32" ∷ some "*fp32" ∷ []
branches_of (some types) = types

unfoldable pub check_dead : List (Option String) → List FactName → Result AnnotationError (Unit {0})
check_dead branches [] = ok tt
check_dead branches (field ∷ rest) = do
  refuse (not (any (λ branch. applicable branch field) branches)) (dead_fact field)
  check_dead branches rest

-- `value == 1`; the value fits an integer type where this is asked.
abbrev pub is_one : Value → Bool
is_one (Value.int v) = eqb_ℤ v (pos 1)
is_one _ = false

-- `value % 16 == 0`
abbrev pub is_aligned : Value → Bool
is_aligned (Value.int v) = abs v % 16 == 0
is_aligned _ = false

abbrev pub violates : Value → FactName → Bool
violates v equal_to_one = not (is_one v)
violates v aligned_16 = not (is_aligned v)
violates v pointer_range_32 = false

unfoldable pub check_baked :
    Option String → Value → List FactName → Result AnnotationError (Unit {0})
check_baked ty v [] = ok tt
check_baked ty v (field ∷ rest) = do
  refuse (applicable ty field && violates v field) (violates_fact field)
  check_baked ty v rest

-- `types[0]` of the one effective type.
abbrev pub first_type : Option (List (Option String)) → Option String
first_type (some (ty ∷ types)) = ty
first_type _ = none

abbrev pub is_one_pointer : Option (List (Option String)) → Bool
is_one_pointer (some (ty ∷ [])) = is_pointer_type ty
is_one_pointer _ = false

-- Whether the field names one type: neither UNSET nor AUTO nor a sequence.
abbrev pub is_explicit : TypeField → Bool
is_explicit (TypeField.one TypeValue.auto) = false
is_explicit (TypeField.one choice) = true
is_explicit _ = false

abbrev pub tensor_can_bind : Option (List (Option String)) → Bool
tensor_can_bind none = true
tensor_can_bind (some (none ∷ [])) = true
tensor_can_bind (some (some name ∷ [])) = is_pointer_type (some name)
tensor_can_bind (some types) = false

-- What `bind_value` asks of the types.
unfoldable pub check_bound :
    TypeField → Option (List (Option String)) → Option BindValue → Result AnnotationError (Unit {0})
check_bound field types none = ok tt
check_bound field types (some pointer) =
    refuse (not (is_explicit field && is_one_pointer types)) pointer_needs_one_type
check_bound field types (some tensor) = refuse (not (tensor_can_bind types)) tensor_needs_pointer

-- A fixed or bound argument has one effective type; a bound tensor may have none.
abbrev pub has_one_type : Option (List (Option String)) → Option BindValue → Bool
has_one_type (some types) bind_value = length types == 1
has_one_type none (some tensor) = true
has_one_type none _ = false

unfoldable pub check_one_type :
    Option (List (Option String))
    → Option Value
    → Option BindValue
    → Result AnnotationError (Unit {0})
check_one_type types baked bind_value =
    refuse ((is_some baked || is_some bind_value) && not (has_one_type types bind_value))
      needs_one_type

abbrev pub is_impossible : SetModes → Option String → Bool
is_impossible modes branch =
    is_some branch
    && (applicable branch equal_to_one && applicable branch aligned_16)
    && (is_assume modes.equal_to_one && is_assume modes.aligned_16)

abbrev pub is_dead_range : Merged → List (Option String) → Bool
is_dead_range m branches =
    m.ptr_range
    && (is_never m.modes.pointer_range_32
        || is_some m.baked
        || is_some m.bind_value
        || not (any (λ branch. applicable branch pointer_range_32) branches))

abbrev pub assume_if : Bool → Mode
assume_if true = assume
assume_if false = never

-- As Triton specializes a passed int.
unfoldable pub baked_one : Option String → Value → Mode → Mode
baked_one ty v mode =
    if is_auto mode && applicable ty equal_to_one then assume_if (is_one v) else mode

unfoldable pub baked_aligned : Option String → Value → (one mode : Mode) → Mode
baked_aligned ty v one mode =
    if is_auto mode && applicable ty aligned_16
    then assume_if (not (is_assume one) && is_aligned v)
    else mode

abbrev pub baked_modes : Option String → Value → SetModes → SetModes
baked_modes ty v modes = record modes {
  equal_to_one = baked_one ty v modes.equal_to_one;
  aligned_16 = baked_aligned ty v (baked_one ty v modes.equal_to_one) modes.aligned_16;
}

abbrev pub leaves_auto : SetModes → List (Option String) → Bool
leaves_auto modes branches =
    any
      (λ field.
        is_auto (set_mode_of modes field) && any (λ branch. applicable branch field) branches)
      fact_names

abbrev pub check_value_facts :
    Option (List (Option String)) → Option Value → SetModes → Result AnnotationError (Unit {0})
check_value_facts types none modes = ok tt
check_value_facts types (some v) modes = check_baked (first_type types) v (assumed modes)

-- The modes of a baked or bound argument.
unfoldable pub final_modes :
    Option (List (Option String))
    → Option Value
    → Option BindValue
    → SetModes
    → Result AnnotationError SetModes
final_modes types (some v) bind_value modes = ok (baked_modes (first_type types) v modes)
final_modes types none (some bound) modes =
    refuse (leaves_auto modes (branches_of types)) auto_with_bound >> ok modes
final_modes types none none modes = ok modes

-- The checks of an argument, with its final modes.
unfoldable pub check_argument :
    Merged → Option (List (Option String)) → Result AnnotationError SetModes
check_argument m types = do
  check_dead (branches_of types) (assumed m.modes)
  refuse (is_dead_range m (branches_of types)) dead_ptr_range
  refuse (any (is_impossible m.modes) (branches_of types)) impossible_branch
  check_value_facts types m.baked m.modes
  check_bound m.raw_type types m.bind_value
  check_one_type types m.baked m.bind_value
  final_modes types m.baked m.bind_value m.modes

unfoldable pub modes_of : Merged → Option (List (Option String)) → Result AnnotationError SetModes
modes_of m types = if is_argument m.kind then check_argument m types else ok m.modes

-- What a parameter that is annotated as a tensor cannot be.
abbrev pub clashes_tensor : Merged → Option (List (Option String)) → Bool
clashes_tensor m types =
    not (is_argument m.kind)
    || is_some m.baked
    || is_some m.bind_value
    || elim types [ none ↦ false | some ts ↦ any (λ ty. not (is_pointer_type ty)) ts ]

abbrev pub lacks_integers : Option (List (Option String)) → Bool
lacks_integers none = false
lacks_integers (some types) = not (all is_integer types)

-- The tensor annotations of a parameter: `none_ok` where they are "optional".
abbrev pub is_tensor_only : List Bool → Bool
is_tensor_only kinds = not (length kinds == 0)

unfoldable pub canonical_annotation :
    (fp_types : List String)
    → (triton_typed : Bool) → (tensor_kinds : List Bool) → Merged
    → Result AnnotationError CanonicalAnnotation
canonical_annotation fp_types triton_typed tensor_kinds m = do
  types ← canonical_types fp_types m.kind m.raw_type
  refuse (is_tensor_only tensor_kinds && clashes_tensor m types) tensor_clash
  refuse (m.power && lacks_integers types) power_needs_integer
  tag ← tag_of m.baked
  narrowed ← bake m.kind types m.baked
  check_power m.power m.baked
  modes ← modes_of m narrowed
  ok (record {
    kind = m.kind;
    types = narrowed;
    equal_to_one = modes.equal_to_one;
    aligned_16 = modes.aligned_16;
    pointer_range_32 = modes.pointer_range_32;
    facts = map (λ field. (field, fact_amount field)) (assumed modes);
    power_of_two_or_zero = m.power;
    bind_value = m.bind_value;
    baked_value = tag;
    key_fields = [];
    tuned = false;
    exact_key = false;
    triton_typed = triton_typed && is_argument m.kind;
    tensor_only = is_tensor_only tensor_kinds;
    none_ok = is_tensor_only tensor_kinds && all (λ optional. optional) tensor_kinds;
    ptr_range = m.ptr_range;
  })
