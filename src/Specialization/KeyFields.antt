-- ===== src/Specialization/KeyFields.antt =====
-- specialization.py: which key fields an annotation contributes to the spec key.
pub mod Widths
pub mod Separates
use intj.Prelude.{
  ℕ, String, Bool, true, false, not, ◌&&◌, ◌||◌, Option, none, some, List, [], ◌∷◌, ◌++◌, length,
  any, Result, ok, err, ◌>>=◌, ltb, if◌then◌else◌, max,
}
use intj.ScalarTypes.{is_argument, key_bytes}
use intj.Annotation.{
  equal_to_one, aligned_16, pointer_range_32, is_auto, FieldKind, descriptor, payload, exact_kind,
  exact, CacheKeyField, unplaced, CanonicalAnnotation, is_some, applicable,
}

-- A name that the scalar table lacks, a `max` of nothing, and a key that was not placed.
pub data LayoutError : Type 0 where
  key_error empty_max not_placed : LayoutError

-- `max(key_bytes(ty) for ty in types)`
unfoldable pub widest : List (Option String) → Result LayoutError ℕ
widest [] = err empty_max
widest (ty ∷ []) = elim (key_bytes ty) [ none ↦ err key_error | some bytes ↦ ok bytes ]
widest (ty ∷ rest) = elim (key_bytes ty) [
  | none ↦ err key_error
  | some bytes ↦ widest rest >>= λ others. ok (max bytes others)
]

abbrev pub field_if : Bool → FieldKind → ℕ → List CacheKeyField
field_if true kind width = unplaced kind width ∷ []
field_if false kind width = []

abbrev pub several : List (Option String) → Bool
several types = ltb 1 (length types)

-- `types == (None,)`
abbrev pub only_none : List (Option String) → Bool
only_none (none ∷ []) = true
only_none _ = false

unfoldable pub constexpr_fields :
    Option (List (Option String)) → Result LayoutError (List CacheKeyField)
constexpr_fields none = ok (unplaced descriptor 1 ∷ unplaced payload 8 ∷ [])
constexpr_fields (some types) =
    if only_none types
    then ok []
    else widest types >>= λ width.
        ok (field_if (several types) descriptor 1 ++ field_if (ltb 0 width) payload width)

-- `mode == "auto" and any(_applicable(ty, field) for ty in types)`, for some fact
abbrev pub varies : CanonicalAnnotation → List (Option String) → Bool
varies a types =
    is_auto a.equal_to_one && any (λ ty. applicable ty equal_to_one) types
    || is_auto a.aligned_16 && any (λ ty. applicable ty aligned_16) types
    || is_auto a.pointer_range_32 && any (λ ty. applicable ty pointer_range_32) types

unfoldable pub argument_fields : CanonicalAnnotation → List CacheKeyField
argument_fields a =
    field_if (elim a.types [ none ↦ true | some types ↦ several types || varies a types ])
      descriptor 1
    ++ (if a.exact_key then unplaced exact_kind 1 ∷ unplaced exact 8 ∷ [] else [])

-- Whether the call passes the parameter.
abbrev pub is_public : CanonicalAnnotation → Bool
is_public a = not (is_some a.baked_value) && not (is_some a.bind_value) && not a.tuned

-- `_cache_key_fields`
unfoldable pub cache_key_fields : CanonicalAnnotation → Result LayoutError (List CacheKeyField)
unfolding constexpr_fields argument_fields
cache_key_fields a =
    if a.tuned || is_some a.baked_value || is_some a.bind_value
    then ok []
    else if is_argument a.kind
    then ok (argument_fields a)
    else if a.power_of_two_or_zero
    then ok (unplaced payload 1 ∷ [])
    else constexpr_fields a.types

-- `_dynamic_key_fields`
abbrev pub dynamic_key_fields : String → List CacheKeyField
dynamic_key_fields name = unplaced exact_kind 1 ∷ unplaced exact 8 ∷ []

-- `_object_capable`
unfoldable pub object_capable : CanonicalAnnotation → Bool
object_capable a = not (is_argument a.kind) && not (is_some a.types) && not a.power_of_two_or_zero
