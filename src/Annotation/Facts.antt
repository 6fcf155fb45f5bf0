-- ===== src/Annotation/Facts.antt =====
-- annotation.py: facts and policies: `_checked_facts`, `Assume`, `Exactly`, the classes `Argument` and
-- `Constexpr` with their checks, and `_specialization_modes`.
use intj.Prelude.{
  ℕ, Bool, false, not, ◌&&◌, Option, none, some, List, [], ◌∷◌, Result, ok, err, ◌>>=◌, ◌>>◌,
  refuse,
}
use intj.Prelude.Int.{pos, eqb_ℤ}
use intj.Values.{Value}
use intj.Annotation.{
  FactName, equal_to_one, aligned_16, pointer_range_32, Mode, assume, BindValue, AnnotationError,
  not_a_fact, fact_not_int, unsupported_fact, value_and_bind_value, is_some,
}
use intj.Annotation.Types.{TypeField, normalize_type_field}

-- `EqualTo(value)`, `Aligned(value)` or `PointerRange(value)`; `foreign` is any other object.
pub data Fact : Type 0 where
  fact : FactName → (value : Value) → Fact
  foreign : Fact

-- `_FACT_CLASSES`: the value that a fact must have.
abbrev pub fact_amount : FactName → ℕ
fact_amount equal_to_one = 1
fact_amount aligned_16 = 16
fact_amount pointer_range_32 = 32

abbrev pub check_amount : FactName → Value → Result AnnotationError (Unit {0})
check_amount name (Value.int v) = refuse (not (eqb_ℤ v (pos (fact_amount name)))) unsupported_fact
check_amount name _ = err fact_not_int

-- `_checked_facts`
unfoldable pub check_facts : List Fact → Result AnnotationError (Unit {0})
check_facts [] = ok tt
check_facts (foreign ∷ rest) = err not_a_fact
check_facts (fact name value ∷ rest) = do check_amount name value; check_facts rest

-- A `specialize` field.
pub data Policy : Type 0 where
  unset auto never : Policy
  assuming exactly : List Fact → Policy

-- `Assume(*facts)` and `Exactly(*facts)`
unfoldable pub assume_facts : List Fact → Result AnnotationError Policy
assume_facts facts = check_facts facts >> ok (assuming facts)

unfoldable pub exactly_facts : List Fact → Result AnnotationError Policy
exactly_facts facts = check_facts facts >> ok (exactly facts)

-- A class `Argument` object whose fields have their declared types. `UNSET` is `none`.
pub record Argument : Type 0 where
  pub type_field : TypeField
  pub specialize : Policy
  pub value : Option Value
  pub bind_value : Option BindValue
  pub ptr_range : Bool

pub record Constexpr : Type 0 where
  pub type_field : TypeField
  pub power_of_two_or_zero : Bool
  pub value : Option Value

-- `Argument.__post_init__`
unfoldable pub new_argument : Argument → Result AnnotationError Argument
new_argument a = do
  field ← normalize_type_field a.type_field
  refuse (is_some a.value && is_some a.bind_value) value_and_bind_value
  ok (record a { type_field = field })

-- `Constexpr.__post_init__`
unfoldable pub new_constexpr : Constexpr → Result AnnotationError Constexpr
new_constexpr a =
    normalize_type_field a.type_field >>= λ field. ok (record a { type_field = field })

-- The per-fact modes, where a mode may be `UNSET`.
pub record Modes : Type 0 where
  pub equal_to_one : Option Mode
  pub aligned_16 : Option Mode
  pub pointer_range_32 : Option Mode

abbrev pub every_mode : Option Mode → Modes
every_mode mode = record { equal_to_one = mode; aligned_16 = mode; pointer_range_32 = mode }

-- `modes[_FACT_NAMES.index(field)] = "assume"`
abbrev pub set_assume : FactName → Modes → Modes
set_assume FactName.equal_to_one modes = record modes { equal_to_one = some assume }
set_assume FactName.aligned_16 modes = record modes { aligned_16 = some assume }
set_assume FactName.pointer_range_32 modes = record modes { pointer_range_32 = some assume }

-- In `_specialization_modes` a value that is no int, and any other wrong value, is one error.
abbrev pub is_amount : FactName → Value → Bool
is_amount name (Value.int v) = eqb_ℤ v (pos (fact_amount name))
is_amount name _ = false

unfoldable pub assume_all : List Fact → Modes → Result AnnotationError Modes
assume_all [] modes = ok modes
assume_all (foreign ∷ rest) modes = err not_a_fact
assume_all (fact name value ∷ rest) modes = do
  refuse (not (is_amount name value)) unsupported_fact
  assume_all rest (set_assume name modes)

-- `_specialization_modes`
unfoldable pub specialization_modes : Policy → Result AnnotationError Modes
specialization_modes Policy.unset = ok (every_mode none)
specialization_modes Policy.auto = ok (every_mode (some Mode.auto))
specialization_modes Policy.never = ok (every_mode (some Mode.never))
specialization_modes (assuming facts) = assume_all facts (every_mode none)
specialization_modes (exactly facts) = assume_all facts (every_mode (some Mode.never))
