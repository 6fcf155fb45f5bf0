-- ===== src/Plan/Dynamic.antt =====
-- plan.py: `_check_dynamic`, the names of `dynamic_options`. Triton's knobs are the parameter
-- `knob_attribute`: whether a group of knobs has such an attribute.
use Prim.Native.Char.{Char, code}
use text.Mathlib.Text.{starts_with}
use intj.Prelude.{
  String, Bool, true, false, not, ◌&&◌, ◌||◌, Option, none, some, List, [], ◌∷◌, map, any, filter,
  length, Result, ok, ◌>>◌, refuse, ◌==◌, str_eq, if◌then◌else◌,
}
use intj.Prelude.Dict.{Dict, lookup, insert}
use intj.Prelude.Names.{contains, distinct_from}
use intj.CompileOptions.{or_into, overwrite, Knob, knobs, forbidden_options}
use intj.Plan.Options.{
  BuildError, repeated_name, unknown_knob, forbidden_option, overwritten_option, runtime_parameter,
  given_twice, set_by_configs,
}

-- `arg_names` and `is_constexpr` of a kernel's parameters.
abbrev pub Parameters : Type 0
Parameters = List (String × Bool)

abbrev pub arg_names : Parameters → List String
arg_names params = map (λ p. p.0) params

-- `kernel.params[kernel.arg_names.index(name)].is_constexpr`
unfoldable pub constexpr_at : Parameters → String → Bool
constexpr_at [] name = false
constexpr_at ((n, is_constexpr) ∷ rest) name =
    if str_eq n name then is_constexpr else constexpr_at rest name

abbrev pub onto_first : Char → List String → List String
onto_first c [] = []
onto_first c (part ∷ parts) = String.◌∷◌ c part ∷ parts

-- `name.split(".")`
unfoldable pub split_dots : String → List String
split_dots String.[] = "" ∷ []
split_dots (String.◌∷◌ c s) =
    let rest = split_dots s in if code c == b'.' then "" ∷ rest else onto_first c rest

abbrev pub overwrites_option : Knob → Bool
overwrites_option k = elim k.combine [ or_into ↦ false | overwrite ↦ true ]

-- `KNOB_OVERWRITES`
abbrev pub knob_overwrites : List String
knob_overwrites = map (λ k. k.option) (filter overwrites_option knobs)

-- `{k.path: k.option for k in KNOBS}`
unfoldable pub derived_options : List Knob → Dict String → Dict String
derived_options [] d = d
derived_options (k ∷ rest) d = derived_options rest (insert k.path k.option d)

-- `n in options or derived.get(n) in options`
unfoldable pub is_given : List String → String → Bool
unfolding derived_options
is_given options name = contains options name || elim (lookup name (derived_options knobs [])) [
  | none ↦ false
  | some option ↦ contains options option
]

module _ (knob_attribute : (group attribute : String) → Bool) where
  unfoldable pub is_knob : String → Bool
  unfolding split_dots
  is_knob name = elim (split_dots name) [
    | root ∷ group ∷ attribute ∷ [] ↦ knob_attribute group attribute
    | _ ↦ false
  ]

  -- One round of the loop over the names.
  unfoldable pub check_name : Parameters → String → Result BuildError (Unit {0})
  unfolding is_knob constexpr_at
  check_name params name =
      if starts_with name "knobs." then refuse (not (is_knob name)) (unknown_knob name) else do
        refuse (contains forbidden_options name) (forbidden_option name)
        refuse (contains knob_overwrites name) (overwritten_option name)
        refuse (contains (arg_names params) name && not (constexpr_at params name))
            (runtime_parameter name)

  unfoldable pub check_names : Parameters → List String → Result BuildError (Unit {0})
  unfolding check_name
  check_names params [] = ok tt
  check_names params (name ∷ rest) = check_name params name >> check_names params rest

  -- `_check_dynamic`; `tuned` are the names that the plan of a chain tunes.
  unfoldable pub check_dynamic :
      (dynamic options : List String)
      → Parameters
      → (tuned : Option (List String)) → Result BuildError (Unit {0})
  unfolding check_names is_given
  check_dynamic dynamic options params tuned = do
    refuse (not (length (distinct_from [] dynamic) == length dynamic)) repeated_name
    check_names params dynamic
    refuse (any (is_given options) dynamic) given_twice
    elim tuned [ none ↦ ok tt | some names ↦ refuse (any (contains names) dynamic) set_by_configs ]
