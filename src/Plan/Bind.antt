-- ===== src/Plan/Bind.antt =====
-- plan.py: `_bind`, the bound device and values. What a value is as a tensor is the parameter `dtype_of`:
-- `none` for anything but a tensor, and else Triton's name of its dtype, where it has one.
use Prim.Native.String.{◌++◌ as str_append}
use intj.Prelude.{
  ◌-◌, ◌^◌, String, Bool, true, false, not, ◌&&◌, ◌||◌, Option, none, some, List, [], ◌∷◌, ◌++◌,
  map, any, filter, Result, ok, err, ◌>>=◌, ◌>>◌, refuse, if◌then◌else◌,
}
use intj.Prelude.Dict.{Dict, lookup, insert, keys}
use intj.Prelude.Int.{ℤ, pos, leb_ℤ}
use intj.Prelude.Names.{contains}
use intj.Values.{Value}
use intj.CompileOptions.{is_none}
use intj.Annotation.{BindValue, tensor, DeviceBinding, fixed, not_fixed, ResolvedParam, is_some}
use intj.Specialization.KeyFields.{only_none}
use intj.Plan.Options.{
  BuildError, device_flag, bad_device, bad_bind_values, unknown_bound, missing_bound, bad_tensor,
  not_none, bad_dtype, key_error, GivenMapping, absent, mapping, other_mapping,
}

-- What `_bind` returns.
pub record Bound : Type 0 where
  pub params : List ResolvedParam
  pub device_binding : DeviceBinding
  pub args : List Value
  pub hidden : List Value

-- The device ordinal, where one is bound.
unfoldable pub check_device : Value → Result BuildError (Option ℤ)
check_device (Value.bool b) = err device_flag
check_device Value.null = ok none
check_device (Value.int z) =
    if leb_ℤ (pos 0) z && leb_ℤ z (pos (2 ^ 31 - 1)) then ok (some z) else err bad_device
check_device _ = err bad_device

unfoldable pub str_items : List (Value × Value) → Dict Value → Result BuildError (Dict Value)
str_items [] d = ok d
str_items ((Value.str k, v) ∷ rest) d = str_items rest (insert k v d)
str_items ((k, v) ∷ rest) d = err bad_bind_values

unfoldable pub bind_values_of : GivenMapping → Result BuildError (Dict Value)
unfolding str_items
bind_values_of absent = ok []
bind_values_of (mapping items) = str_items items []
bind_values_of other_mapping = err bad_bind_values

abbrev pub is_bound : ResolvedParam → Bool
is_bound p = is_some p.annotation.bind_value

-- `{p.name for p in resolved if p.annotation.bind_value is not None}`
abbrev pub bound_names : List ResolvedParam → List String
bound_names resolved = map (λ p. p.name) (filter is_bound resolved)

abbrev pub is_tensor_bound : Option BindValue → Bool
is_tensor_bound (some tensor) = true
is_tensor_bound _ = false

-- `values[name]`
unfoldable pub value_at : Dict Value → String → Result BuildError Value
value_at values name = elim (lookup name values) [ none ↦ err (key_error name) | some v ↦ ok v ]

abbrev pub only_none_type : Option (List (Option String)) → Bool
only_none_type none = false
only_none_type (some types) = only_none types

module _ (dtype_of : Value → Option (Option String)) where
  -- The type of a bound tensor that its annotation leaves open.
  unfoldable pub tensor_type : String → Value → Result BuildError (Option String)
  tensor_type name value = if is_none value then ok none else elim (dtype_of value) [
    | none ↦ err (bad_tensor name)
    | some none ↦ err (bad_dtype name)
    | some (some dtype) ↦ ok (some (str_append "*" dtype))
  ]

  unfoldable pub bind_tensor : ResolvedParam → Value → Result BuildError ResolvedParam
  unfolding tensor_type
  bind_tensor p value = do
    refuse (not (is_none value) && not (is_some (dtype_of value))) (bad_tensor p.name)
    refuse (only_none_type p.annotation.types && not (is_none value)) (not_none p.name)
    elim p.annotation.types [
      | some types ↦ ok p
      | none ↦ do
        ty ← tensor_type p.name value
        ok (record p { annotation = record p.annotation { types = some (ty ∷ []) } })
    ]

  -- The loop over the parameters.
  unfoldable pub bind_params :
      Dict Value → List ResolvedParam → Result BuildError (List ResolvedParam)
  unfolding value_at bind_tensor
  bind_params values [] = ok []
  bind_params values (p ∷ rest) = do
    q ←
        (if is_tensor_bound p.annotation.bind_value
          then (value_at values p.name >>= bind_tensor p)
          else ok p)
    others ← bind_params values rest
    ok (q ∷ others)

-- `tuple(values[p.name] for p in params if p.name in names)`
unfoldable pub bound_values :
    Dict Value → List String → List ResolvedParam → Result BuildError (List Value)
unfolding value_at
bound_values values names [] = ok []
bound_values values names (p ∷ rest) =
    let others = bound_values values names rest in
    if contains names p.name
    then (value_at values p.name >>= λ v. others >>= λ vs. ok (v ∷ vs))
    else others

abbrev pub baked_or_null : Option Value → Value
baked_or_null none = Value.null
baked_or_null (some v) = v

-- The values that `grid_py` cannot see in a call.
unfoldable pub hidden_values :
    Dict Value → List String → List ResolvedParam → Result BuildError (List Value)
unfolding value_at
hidden_values values names [] = ok []
hidden_values values names (p ∷ rest) =
    let others = hidden_values values names rest in
    if is_bound p || is_some p.annotation.baked_value
    then ((if contains names p.name then value_at values p.name else ok (baked_or_null p.baked))
        >>= λ v. others >>= λ vs. ok (v ∷ vs))
    else others

abbrev pub device_args : Option ℤ → List Value
device_args none = []
device_args (some z) = Value.int z ∷ []

abbrev pub binding_of : Option ℤ → DeviceBinding
binding_of none = not_fixed
binding_of (some z) = fixed

-- `_bind`
unfoldable pub bind :
    (dtype_of : Value → Option (Option String))
    → (device : Value) → (given : GivenMapping) → List ResolvedParam
    → Result BuildError Bound
unfolding check_device bind_values_of bind_params bound_values hidden_values
bind dtype_of device given resolved = do
  ordinal ← check_device device
  values ← bind_values_of given
  let names = bound_names resolved
  refuse (any (λ k. not (contains names k)) (keys values)) unknown_bound
  refuse (any (λ n. not (contains (keys values) n)) names) missing_bound
  params ← bind_params dtype_of values resolved
  fixed_values ← bound_values values names params
  hidden ← hidden_values values names params
  ok (record {
    params = params;
    device_binding = binding_of ordinal;
    args = device_args ordinal ++ fixed_values;
    hidden = hidden;
  })
