-- ===== src/Annotation.antt =====
-- annotation.py: the canonical annotation of a kernel parameter, and the facts that apply to a type.
mod Examples
pub mod Bake
pub mod Built
pub mod Canonical
pub mod Coherent
pub mod Facts
pub mod Fixed
pub mod Known
pub mod Keyable
pub mod Merge
pub mod Powers
pub mod Resolve
pub mod Types
use text.Mathlib.Text.{starts_with}
use intj.Prelude.{ℕ, String, Bool, true, false, ◌||◌, Option, none, some, List}
use intj.Prelude.Int.{ℤ}
use intj.Values.{Float, Value}
use intj.ScalarTypes.{ParamKind, is_integer}

-- `_FACT_NAMES`
pub data FactName : Type 0 where
  equal_to_one aligned_16 pointer_range_32 : FactName

-- The errors that annotations raise, one for each message.
pub data AnnotationError : Type 0 where
  empty_types unsupported_pointer unsupported_type auto_in_types not_scalar : AnnotationError
  not_a_fact fact_not_int unsupported_fact value_and_bind_value : AnnotationError
  unknown_parameter unsupported_annotation conflicting_kind conflicting_tensor : AnnotationError
  dead_fact violates_fact : FactName → AnnotationError
  conflict : (field : String) → AnnotationError
  tensor_clash power_needs_integer bad_baked_value no_allowed_type baked_pointer : AnnotationError
  does_not_fit not_a_power dead_ptr_range impossible_branch : AnnotationError
  pointer_needs_one_type tensor_needs_pointer needs_one_type auto_with_bound : AnnotationError

-- What a specialization says of one fact. `UNSET` is `none` where it can occur.
pub data Mode : Type 0 where
  auto never assume : Mode

abbrev pub is_auto : Mode → Bool
is_auto auto = true
is_auto _ = false

abbrev pub is_assume : Mode → Bool
is_assume assume = true
is_assume _ = false

abbrev pub is_never : Mode → Bool
is_never never = true
is_never _ = false

pub data BindValue : Type 0 where
  tensor pointer : BindValue

pub data DeviceBinding : Type 0 where
  fixed not_fixed : DeviceBinding

-- What a key field holds.
pub data FieldKind : Type 0 where
  descriptor payload exact_kind exact : FieldKind

-- An offset of -1, "not placed yet", is `none`.
pub record CacheKeyField : Type 0 where
  pub kind : FieldKind
  pub width : ℕ
  pub offset : Option ℕ

abbrev pub unplaced : FieldKind → ℕ → CacheKeyField
unplaced kind width = record { kind = kind; width = width; offset = none }

-- The tag of a baked value: what `_canonical_value` returns. An `int` stands for its digits, and a
-- `float` for the hex of its eight bytes, where one nan stands for all.
pub data Tag : Type 0 where
  dtype : (name : String) → Tag
  str : String → Tag
  jit : (module_name qualname cache_key : String) → Tag
  null : Tag
  bool : Bool → Tag
  int : ℤ → Tag
  float64 : Float → Tag

-- `baked_value`, a tuple that is empty unless a value is baked, is an optional tag.
pub record CanonicalAnnotation : Type 0 where
  pub kind : ParamKind
  pub types : Option (List (Option String))
  pub equal_to_one : Mode
  pub aligned_16 : Mode
  pub pointer_range_32 : Mode
  pub facts : List (FactName × ℕ)
  pub power_of_two_or_zero : Bool
  pub bind_value : Option BindValue
  pub baked_value : Option Tag
  pub key_fields : List CacheKeyField
  pub tuned : Bool
  pub exact_key : Bool
  pub triton_typed : Bool
  pub tensor_only : Bool
  pub none_ok : Bool
  pub ptr_range : Bool

-- `baked` is `UNSET` unless a value is baked.
pub record ResolvedParam : Type 0 where
  pub name : String
  pub index : ℕ
  pub annotation : CanonicalAnnotation
  pub baked : Option Value

abbrev pub is_some {ℓ} : {A : Type ℓ} → Option A → Bool
is_some none = false
is_some (some a) = true

-- `name.startswith("*")`
abbrev pub is_pointer : String → Bool
is_pointer name = starts_with name "*"

-- `_applicable`
unfoldable pub applicable : Option String → FactName → Bool
applicable none field = false
applicable (some name) pointer_range_32 = is_pointer name
applicable (some name) equal_to_one = is_integer (some name)
applicable (some name) aligned_16 = is_pointer name || is_integer (some name)
