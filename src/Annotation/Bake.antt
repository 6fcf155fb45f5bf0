-- ===== src/Annotation/Bake.antt =====
-- annotation.py: a value that is baked into the launcher: `_canonical_value`, and how
-- `_merge_annotations` narrows the types to the value's one.
use intj.Prelude.{
  ℕ, zero, suc, ◌+◌, ◌/◌, ◌%◌, String, Bool, true, false, not, ◌&&◌, ◌||◌, Option, none, some, List,
  [], ◌∷◌, any, filter, ◌==◌, Result, ok, err, ◌>>=◌, ◌>>◌, refuse, if◌then◌else◌,
}
use intj.Prelude.Int.{pos, eqb_ℤ, abs}
use intj.Values.{Value}
use intj.ScalarTypes.{ParamKind, argument, constexpr, fits, narrowness, narrower}
use intj.Annotation.{
  AnnotationError, bad_baked_value, no_allowed_type, baked_pointer, does_not_fit, not_a_power, Tag,
  is_pointer,
}
use intj.Annotation.Types.{same_name, inferred_scalar_type}

-- `_canonical_value`
unfoldable pub canonical_value : Value → Result AnnotationError Tag
canonical_value (Value.dtype name) = ok (Tag.dtype name)
canonical_value (Value.str s) = ok (Tag.str s)
canonical_value (Value.jit module_name qualname cache_key) =
    ok (Tag.jit module_name qualname cache_key)
canonical_value Value.null = ok Tag.null
canonical_value (Value.bool b) = ok (Tag.bool b)
canonical_value (Value.int v) = ok (Tag.int v)
canonical_value (Value.float f) = ok (Tag.float64 f)
canonical_value (Value.object n) = err bad_baked_value

-- Whether the type is a pointer's; None is not.
abbrev pub is_pointer_type : Option String → Bool
is_pointer_type none = false
is_pointer_type (some name) = is_pointer name

-- `min(types, key=narrowness)`: the first one of the narrowest.
unfoldable pub narrowest : Option String → List (Option String) → Option String
narrowest ty [] = ty
narrowest ty (u ∷ rest) = narrowest (if narrower (narrowness u) (narrowness ty) then u else ty) rest

-- `isinstance(value, (dtype, JITFunction)) or type(value) is str`
abbrev pub is_named : Value → Bool
is_named (Value.dtype name) = true
is_named (Value.jit m q k) = true
is_named (Value.str s) = true
is_named _ = false

-- An untyped scalar must be one that Triton takes.
abbrev pub check_scalar : Value → Result AnnotationError (Unit {0})
check_scalar v = if is_named v then ok tt else inferred_scalar_type v >>= λ _. ok tt

unfoldable pub bake_constexpr :
    Option (List (Option String)) → Value → Result AnnotationError (Option (List (Option String)))
bake_constexpr none v = check_scalar v >> ok none
bake_constexpr (some types) v = elim (filter (λ ty. fits v ty constexpr) types) [
  | [] ↦ err does_not_fit
  | ty ∷ rest ↦ ok (some (narrowest ty rest ∷ []))
]

-- The one type of a baked argument: the annotated one, or what Triton infers if that is allowed.
unfoldable pub baked_type :
    Option (List (Option String)) → Option String → Result AnnotationError (Option String)
baked_type none inferred = ok inferred
baked_type (some (ty ∷ [])) inferred = ok ty
baked_type (some types) inferred =
    if any (same_name inferred) types then ok inferred else err no_allowed_type

unfoldable pub bake_argument :
    Option (List (Option String)) → Value → Result AnnotationError (Option (List (Option String)))
bake_argument types v = do
  inferred ← inferred_scalar_type v
  ty ← baked_type types inferred
  refuse (is_pointer_type ty) baked_pointer
  refuse (not (fits v ty argument)) does_not_fit
  ok (some (ty ∷ []))

-- The types after the value is taken into account.
unfoldable pub bake :
    ParamKind
    → Option (List (Option String))
    → Option Value
    → Result AnnotationError (Option (List (Option String)))
bake kind types none = ok types
bake argument types (some v) = bake_argument types v
bake constexpr types (some v) = bake_constexpr types v

-- How many bits of a number are set. A number has fewer bits than its value, which is the fuel.
unfoldable pub bit_count_from : (fuel n : ℕ) → ℕ
bit_count_from zero n = 0
bit_count_from (suc fuel) n = elim (n == 0) [
  | true ↦ 0
  | false ↦ n % 2 + bit_count_from fuel (n / 2)
]

-- `n.bit_count()`
unfoldable pub bit_count : ℕ → ℕ
bit_count n = bit_count_from n n

abbrev pub is_power_or_zero : Value → Bool
is_power_or_zero (Value.int v) = eqb_ℤ v (pos 0) || bit_count (abs v) == 1
is_power_or_zero _ = false

unfoldable pub check_power : Bool → Option Value → Result AnnotationError (Unit {0})
check_power power none = ok tt
check_power power (some v) = refuse (power && not (is_power_or_zero v)) not_a_power

-- The tag, if a value is baked.
unfoldable pub tag_of : Option Value → Result AnnotationError (Option Tag)
tag_of none = ok none
tag_of (some v) = canonical_value v >>= λ tag. ok (some tag)
