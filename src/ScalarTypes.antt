-- ===== src/ScalarTypes.antt =====
-- scalar_types.py: the table of Triton's scalar type names, and what is asked of a name. A type is
-- an optional name; `none` is the type of None.
mod Examples
pub mod Fits
pub mod Payload
use Prim.Native.Nat.{Ordering}
use Prim.Native.String.{compare}
use intj.Prelude.{
  ℕ, ◌-◌, ◌/◌, ◌^◌, String, Bool, true, false, ◌&&◌, ◌||◌, Option, none, some, List, [], ◌∷◌, ltb,
  ◌==◌, str_eq, if◌then◌else◌,
}
use intj.Prelude.Int.{ℤ, pos, leb_ℤ, ltb_ℤ, negate_ℕ}
use intj.Values.{Value, round_f32, float_eq}

pub data Kind : Type 0 where
  bool signed unsigned float : Kind

pub record Scalar : Type 0 where
  pub name : String
  pub kind : Kind
  pub bits : ℕ

abbrev scalar : String → Kind → ℕ → Scalar
scalar name kind bits = record { name = name; kind = kind; bits = bits }

-- `SCALARS`, with its comprehensions written out.
abbrev pub scalars : List Scalar
scalars =
    scalar "u1" Kind.bool 1
    ∷ scalar "i8" Kind.signed 8
    ∷ scalar "i16" Kind.signed 16
    ∷ scalar "i32" Kind.signed 32
    ∷ scalar "i64" Kind.signed 64
    ∷ scalar "u8" Kind.unsigned 8
    ∷ scalar "u16" Kind.unsigned 16
    ∷ scalar "u32" Kind.unsigned 32
    ∷ scalar "u64" Kind.unsigned 64
    ∷ scalar "fp32" Kind.float 32
    ∷ scalar "fp64" Kind.float 64
    ∷ []

-- `SCALARS.get(name)`
unfoldable pub find_scalar : List Scalar → String → Option Scalar
find_scalar [] name = none
find_scalar (s ∷ rest) name = if str_eq s.name name then some s else find_scalar rest name

abbrev pub is_bool_kind : Kind → Bool
is_bool_kind Kind.bool = true
is_bool_kind _ = false

abbrev pub is_signed : Kind → Bool
is_signed Kind.signed = true
is_signed _ = false

abbrev pub is_unsigned : Kind → Bool
is_unsigned Kind.unsigned = true
is_unsigned _ = false

abbrev pub is_float_kind : Kind → Bool
is_float_kind Kind.float = true
is_float_kind _ = false

-- `SCALARS.get(name or "")`: the empty text is no scalar's name.
unfoldable pub scalar_of : Option String → Option Scalar
scalar_of none = find_scalar scalars ""
scalar_of (some name) = find_scalar scalars name

unfoldable pub is_integer : Option String → Bool
is_integer name = elim (scalar_of name) [
  | none ↦ false
  | some s ↦ is_signed s.kind || is_unsigned s.kind
]

unfoldable pub is_float : Option String → Bool
is_float name = elim (scalar_of name) [ none ↦ false | some s ↦ is_float_kind s.kind ]

-- `SCALARS[name]` raises KeyError for another name, which is `none` here.
unfoldable pub key_bytes : Option String → Option ℕ
key_bytes none = some 0
key_bytes (some name) = elim (scalar_of (some name)) [
  | none ↦ none
  | some s ↦ some (if ltb 1 (s.bits / 8) then s.bits / 8 else 1)
]

unfoldable pub narrowness : Option String → ℕ × String
narrowness none = (0, "")
narrowness (some name) = elim (scalar_of (some name)) [
  | none ↦ (0, name)
  | some s ↦ (if (if is_float_kind s.kind then s.bits == 64 else true) then s.bits else 0, name)
]

abbrev pub text_lt : String → String → Bool
text_lt s t = elim (compare s t) [ Ordering.lt ↦ true | _ ↦ false ]

-- `<` of the pairs that `narrowness` returns.
unfoldable pub narrower : ℕ × String → ℕ × String → Bool
narrower (a, s) (b, t) = ltb a b || a == b && text_lt s t

-- The kind of parameter that a value is given to.
pub data ParamKind : Type 0 where
  argument constexpr : ParamKind

abbrev pub is_argument : ParamKind → Bool
is_argument argument = true
is_argument constexpr = false

-- The bounds of a `bits`-wide integer: `-(1 << (bits - 1))` or 0, and the first value above.
abbrev pub low_of : Kind → ℕ → ℤ
low_of Kind.signed bits = negate_ℕ (2 ^ (bits - 1))
low_of _ bits = pos 0

abbrev pub high_of : Kind → ℕ → ℤ
high_of Kind.signed bits = pos (2 ^ (bits - 1))
high_of _ bits = pos (2 ^ bits)

unfoldable pub fits_scalar : Scalar → Value → ParamKind → Bool
fits_scalar s (Value.bool b) kind = is_bool_kind s.kind
fits_scalar s (Value.int v) kind =
    (is_signed s.kind || is_unsigned s.kind)
    && (leb_ℤ (low_of s.kind s.bits) v && ltb_ℤ v (high_of s.kind s.bits))
fits_scalar s (Value.float f) kind =
    is_float_kind s.kind
    && (s.bits == 64 || elim (round_f32 f) [
      | none ↦ false
      | some rounded ↦ is_argument kind || float_eq rounded f
    ])
fits_scalar s _ kind = false

abbrev pub is_null : Value → Bool
is_null Value.null = true
is_null _ = false

unfoldable pub fits : Value → Option String → ParamKind → Bool
fits value none kind = is_null value
fits value (some name) kind = elim (scalar_of (some name)) [
  | none ↦ false
  | some s ↦ fits_scalar s value kind
]
