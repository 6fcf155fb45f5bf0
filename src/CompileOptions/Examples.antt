-- ===== src/CompileOptions/Examples.antt =====
-- A launcher's options under what one autotune config sets, with the debug knob on.
use intj.Prelude.{◌≡◌, refl, String, true, false, some, List, [], ◌∷◌, Result, ok, err}
use intj.Prelude.Dict.{Dict, lookup, insert}
use intj.Prelude.Int.{pos}
use intj.Prelude.Names.{contains}
use intj.Values.{Value}
use intj.CompileOptions.{
  knob_options, apply_knob, apply_knobs, overlaid, OptionError, unknown_options, canonical_options,
  resolve,
}
use intj.CompileOptions.Merging.{knob_options-overlaid, resolve-known}

-- Every declaration that unfolds it computes with the definitions named here.
program : Unit {0}
unfolding lookup insert contains knob_options apply_knob apply_knobs overlaid canonical_options
    resolve
program = tt

abbrev base : Dict Value
base = ("num_warps", Value.int (pos 4)) ∷ ("debug", Value.bool false) ∷ []

abbrev overlay : Dict Value
overlay = ("num_warps", Value.int (pos 8)) ∷ []

abbrev knob_values : Dict Value
knob_values = ("knobs.runtime.debug", Value.bool true) ∷ []

-- A kernel with no attribute set.
abbrev no_attribute : String → Value
no_attribute name = Value.null

-- A backend that keeps the options as they are, and knows some names.
abbrev keep_options : Dict Value → Result OptionError (Dict Value)
keep_options options = ok options

abbrev known_fields : Dict Value → List String
known_fields options = "num_warps" ∷ "debug" ∷ "instrumentation_mode" ∷ []

abbrev resolved : Dict Value
resolved =
    ("num_warps", Value.int (pos 8))
    ∷ ("debug", Value.bool true)
    ∷ ("instrumentation_mode", Value.str "")
    ∷ []

resolve-config :
    resolve keep_options known_fields no_attribute base overlay knob_values ≡ ok resolved
unfolding program
resolve-config = refl

resolve-typo :
    resolve keep_options known_fields no_attribute base
      (("num_wraps", Value.int (pos 8)) ∷ [])
      knob_values
    ≡ err unknown_options
unfolding program
resolve-typo = refl

knob_options-overlaid_example :
    lookup "num_warps" (knob_options no_attribute (overlaid base overlay) knob_values)
    ≡ some (Value.int (pos 8))
unfolding program
knob_options-overlaid_example =
    knob_options-overlaid no_attribute knob_values base overlay "num_warps" (refl, tt)

resolve-known_example : contains (known_fields resolved) "num_warps" ≡ true
unfolding program
resolve-known_example =
    resolve-known keep_options known_fields no_attribute base overlay knob_values resolved
      "num_warps" resolve-config refl
