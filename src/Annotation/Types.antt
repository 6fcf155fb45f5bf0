-- ===== src/Annotation/Types.antt =====
-- annotation.py: the canonical names of the types in an annotation: `_normalize_type_field`,
-- `_type_name`, `_canonical_types` and `_inferred_scalar_type`.
use Prim.Native.Nat.{Ordering}
use Prim.Native.String.{compare, ◌++◌ as str_append}
use intj.Prelude.{
  ◌^◌, String, Bool, true, false, not, ◌&&◌, ◌||◌, Option, none, some, List, [], ◌∷◌, any, Result,
  ok, err, ◌>>=◌, str_eq, if◌then◌else◌,
}
use intj.Prelude.Dict.{Dict, lookup}
use intj.Prelude.Int.{pos, negate_ℕ, leb_ℤ, ltb_ℤ}
use intj.Prelude.Names.{contains}
use intj.Prelude.Sort.{sort_by}
use intj.Values.{Value}
use intj.ScalarTypes.{ParamKind, is_argument}
use intj.Annotation.{
  AnnotationError, empty_types, unsupported_pointer, unsupported_type, auto_in_types, not_scalar,
}

-- An object in a `type` field. `dtype` is exactly a `tl.dtype`, by name; of a `tl.pointer_type` the
-- source asks whether its address space is 1 or "global", and whether it is const.
pub data TypeValue : Type 0 where
  null : TypeValue
  auto : TypeValue
  dtype : (name : String) → TypeValue
  pointer : (is_global is_const : Bool) → (element : TypeValue) → TypeValue
  other : TypeValue

-- A `type` field: `one AUTO` is AUTO itself.
pub data TypeField : Type 0 where
  unset : TypeField
  one : TypeValue → TypeField
  many : List TypeValue → TypeField

-- `_normalize_type_field`
abbrev pub normalize_type_field : TypeField → Result AnnotationError TypeField
normalize_type_field (many []) = err empty_types
normalize_type_field field = ok field

-- The integer types, with the slices of their names written out.
abbrev pub integer_names : Dict String
integer_names =
    ("int1", "u1")
    ∷ ("int8", "i8")
    ∷ ("int16", "i16")
    ∷ ("int32", "i32")
    ∷ ("int64", "i64")
    ∷ ("uint8", "u8")
    ∷ ("uint16", "u16")
    ∷ ("uint32", "u32")
    ∷ ("uint64", "u64")
    ∷ []

-- The floats that a value of the kind of parameter can have.
abbrev pub float_names : ParamKind → List String
float_names kind = if is_argument kind then "fp32" ∷ "fp64" ∷ [] else "fp64" ∷ []

-- `fp_types` is `tl.dtype.FP_TYPES`, which an element of a pointer may be of.
unfoldable pub float_name :
    (fp_types : List String) → ParamKind → (element : Bool) → String → Result AnnotationError String
float_name fp_types kind element name =
    if contains (float_names kind) name || element && contains fp_types name
    then ok name
    else err unsupported_type

unfoldable pub dtype_name :
    (fp_types : List String) → ParamKind → (element : Bool) → String → Result AnnotationError String
dtype_name fp_types kind element name = elim (lookup name integer_names) [
  | some short ↦ ok short
  | none ↦ float_name fp_types kind element name
]

abbrev pub starred : Option String → Result AnnotationError (Option String)
starred none = err unsupported_pointer
starred (some item) = ok (some (str_append "*" item))

-- `_type_name`
unfoldable pub type_name :
    (fp_types : List String)
    → ParamKind
    → (element : Bool) → TypeValue
    → Result AnnotationError (Option String)
type_name fp_types kind element null = ok none
type_name fp_types kind element (dtype name) =
    dtype_name fp_types kind element name >>= λ short. ok (some short)
type_name fp_types kind element (pointer is_global is_const item) =
    let inner = type_name fp_types kind true item in
    if is_argument kind
    then if not is_global || is_const then err unsupported_pointer else inner >>= starred
    else err unsupported_type
type_name fp_types kind element _ = err unsupported_type

unfoldable pub type_names :
    (fp_types : List String)
    → ParamKind
    → List TypeValue
    → Result AnnotationError (List (Option String))
type_names fp_types kind [] = ok []
type_names fp_types kind (choice ∷ rest) = do
  name ← type_name fp_types kind false choice
  names ← type_names fp_types kind rest
  ok (name ∷ names)

abbrev pub is_auto_value : TypeValue → Bool
is_auto_value auto = true
is_auto_value _ = false

-- `==` of optional names.
abbrev pub same_name : Option String → Option String → Bool
same_name none none = true
same_name (some a) (some b) = str_eq a b
same_name _ _ = false

-- The elements of the set of names, each once.
unfoldable pub distinct_names : List (Option String) → List (Option String)
distinct_names [] = []
distinct_names (name ∷ rest) =
    let others = distinct_names rest in if any (same_name name) rest then others else name ∷ others

abbrev text_le : String → String → Bool
text_le s t = elim (compare s t) [ Ordering.gt ↦ false | _ ↦ true ]

-- The order of the key `(name is not None, name or "")`.
abbrev pub by_name : Option String → Option String → Bool
by_name none b = true
by_name (some a) none = false
by_name (some a) (some b) = text_le a b

unfoldable pub sorted_types :
    (fp_types : List String)
    → ParamKind
    → List TypeValue
    → Result AnnotationError (Option (List (Option String)))
unfolding sort_by
sorted_types fp_types kind chosen =
    if any is_auto_value chosen
    then err auto_in_types
    else type_names fp_types kind chosen >>= λ names.
        ok (some (sort_by by_name (distinct_names names)))

-- `_canonical_types`
unfoldable pub canonical_types :
    (fp_types : List String)
    → ParamKind
    → TypeField
    → Result AnnotationError (Option (List (Option String)))
canonical_types fp_types kind unset = ok none
canonical_types fp_types kind (one auto) = ok none
canonical_types fp_types kind (one choice) = sorted_types fp_types kind (choice ∷ [])
canonical_types fp_types kind (many chosen) = sorted_types fp_types kind chosen

-- `_inferred_scalar_type`
unfoldable pub inferred_scalar_type : Value → Result AnnotationError (Option String)
inferred_scalar_type Value.null = ok none
inferred_scalar_type (Value.bool b) = ok (some "u1")
inferred_scalar_type (Value.float f) = ok (some "fp32")
inferred_scalar_type (Value.int v) =
    if leb_ℤ (negate_ℕ (2 ^ 31)) v && ltb_ℤ v (pos (2 ^ 31))
    then ok (some "i32")
    else if leb_ℤ (negate_ℕ (2 ^ 63)) v && ltb_ℤ v (pos (2 ^ 63))
    then ok (some "i64")
    else if leb_ℤ (pos 0) v && ltb_ℤ v (pos (2 ^ 64))
    then ok (some "u64")
    else err not_scalar
inferred_scalar_type _ = err not_scalar
