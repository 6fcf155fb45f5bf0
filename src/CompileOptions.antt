-- ===== src/CompileOptions.antt =====
-- compile_options.py: where a compile's options come from, and how they merge. Triton's backend is the
-- parameter `parse_options`, with the names of the fields of what it returns.
mod Examples
pub mod Merging
use intj.Prelude.{
  ℕ, String, Bool, true, false, not, ◌&&◌, ◌||◌, Option, none, some, List, [], ◌∷◌, map, any,
  filter, Result, ok, err, ◌>>=◌, ◌>>◌, refuse, str_eq, ◌==◌, if◌then◌else◌,
}
use intj.Prelude.Dict.{Dict, lookup, insert, get_or, keys}
use intj.Prelude.Int.{pos, eqb_ℤ}
use intj.Prelude.Names.{contains}
use intj.Values.{Float, finite, infinite, nan, Value}
use intj.ScalarTypes.{is_argument}
use intj.Annotation.{is_some, ResolvedParam}

-- `combine`
pub data Combine : Type 0 where
  or_into overwrite : Combine

pub record Knob : Type 0 where
  pub path : String
  pub option : String
  pub combine : Combine
  pub default : Value

abbrev pub debug_knob : Knob
debug_knob = record {
  path = "knobs.runtime.debug";
  option = "debug";
  combine = or_into;
  default = Value.bool false;
}

abbrev pub instrumentation_knob : Knob
instrumentation_knob = record {
  path = "knobs.compilation.instrumentation_mode";
  option = "instrumentation_mode";
  combine = overwrite;
  default = Value.str "";
}

abbrev pub casts_knob : Knob
casts_knob = record {
  path = "knobs.compilation.fpsan_homomorphic_casts";
  option = "fpsan_homomorphic_casts";
  combine = overwrite;
  default = Value.null;
}

-- `KNOBS`
abbrev pub knobs : List Knob
knobs = debug_knob ∷ instrumentation_knob ∷ casts_knob ∷ []

-- `FORBIDDEN_OPTIONS`
abbrev pub forbidden_options : List String
forbidden_options = "device" ∷ "stream" ∷ "device_type" ∷ "warp_size" ∷ []

abbrev pub is_zero_float : Float → Bool
is_zero_float (finite negative magnitude) = magnitude == 0
is_zero_float _ = false

-- Python's truth of a value.
abbrev pub is_true : Value → Bool
is_true Value.null = false
is_true (Value.bool b) = b
is_true (Value.int v) = not (eqb_ℤ v (pos 0))
is_true (Value.float f) = not (is_zero_float f)
is_true (Value.str s) = not (str_eq s "")
is_true _ = true

-- `a or b`
abbrev pub or_value : Value → Value → Value
or_value a b = if is_true a then a else b

abbrev pub is_none : Value → Bool
is_none Value.null = true
is_none _ = false

-- `live_knobs`, where `read` is `getattr` along a path.
unfoldable pub live_knobs : (read : String → Value) → List Knob → Dict Value → Dict Value
live_knobs read [] values = values
live_knobs read (knob ∷ rest) values =
    live_knobs read rest (insert knob.path (read knob.path) values)

-- One round of `knob_options`. `attribute` is `getattr(jit_func, ...)`.
unfoldable pub apply_knob :
    (attribute : String → Value)
    → (options knob_values : Dict Value) → Knob
    → Dict Value
    → Dict Value
apply_knob attribute options knob_values knob merged =
    let value = get_or knob_values knob.path knob.default in
    elim knob.combine [
      | or_into ↦
          insert knob.option (or_value (get_or options knob.option (attribute knob.option)) value)
            merged
      | overwrite ↦ if is_none value then merged else insert knob.option value merged
    ]

unfoldable pub apply_knobs :
    (attribute : String → Value)
    → (options knob_values : Dict Value) → List Knob
    → Dict Value
    → Dict Value
apply_knobs attribute options knob_values [] merged = merged
apply_knobs attribute options knob_values (knob ∷ rest) merged =
    apply_knobs attribute options knob_values rest
      (apply_knob attribute options knob_values knob merged)

-- `knob_options`
unfoldable pub knob_options :
    (attribute : String → Value) → (options knob_values : Dict Value) → Dict Value
knob_options attribute options knob_values = apply_knobs attribute options knob_values knobs options

-- `{**base, **overlay}`
unfoldable pub overlaid : Dict Value → Dict Value → Dict Value
overlaid base [] = base
overlaid base ((name, value) ∷ rest) = overlaid (insert name value base) rest

pub data OptionError : Type 0 where
  unknown_options : OptionError
  backend_refuses : OptionError

-- `refuse_unknown_options`, with the field names of `parsed`.
abbrev pub refuse_unknown_options : (fields names : List String) → Result OptionError (Unit {0})
refuse_unknown_options fields names =
    refuse (any (λ name. not (contains fields name)) names) unknown_options

module _ {P : Type 0} (parse_options : Dict Value → Result OptionError P)
    (fields : P → List String) where
  -- `canonical_options`
  unfoldable pub canonical_options : Dict Value → Result OptionError P
  canonical_options options = do
    parsed ← parse_options options
    refuse_unknown_options (fields parsed) (keys options)
    ok parsed

  -- `resolve`
  unfoldable pub resolve :
      (attribute : String → Value) → (base overlay knob_values : Dict Value) → Result OptionError P
  resolve attribute base overlay knob_values =
      canonical_options (knob_options attribute (overlaid base overlay) knob_values)

  -- `parameter_options`
  unfoldable pub parameter_options : List ResolvedParam → Result OptionError (List String)
  parameter_options params = do
    parsed ← parse_options []
    ok (
        map (λ p. p.name)
          (filter
            (λ p.
              not (is_argument p.annotation.kind)
              && (contains (fields parsed) p.name && not (contains forbidden_options p.name)))
            params))
