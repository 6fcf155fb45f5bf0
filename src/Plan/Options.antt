-- ===== src/Plan/Options.antt =====
-- plan.py and options.py: a launcher's options as they are given, and `_check_values`.
use intj.Prelude.{
  ℕ, ◌+◌, String, Bool, true, false, not, ◌&&◌, ◌||◌, Option, some, List, [], ◌∷◌, all, ltb, Result,
  ok, err, ◌>>=◌, ◌>>◌, refuse,
}
use intj.Prelude.Int.{pos, eqb_ℤ}
use intj.Values.{Value}
use intj.CompileOptions.{is_true, is_none}
use intj.Annotation.{is_some}
use intj.Grid.Syntax.{Function}

-- The messages of `UnsupportedKernel`, TypeError and ValueError, one for each.
pub data BuildError : Type 0 where
  not_bool not_mapping : (name : String) → BuildError
  bad_kernel_cache bad_access_mode one_string not_a_sequence name_not_str bad_grid_arg : BuildError
  several_grids grid_not_callable dynamic_needs_gpu options_need_gpu compiled_needs_gpu : BuildError
  not_a_kernel has_hooks reads_globals : BuildError
  forbidden_option overwritten_option runtime_parameter unknown_knob : (name : String) → BuildError
  repeated_name given_twice set_by_configs names_constexpr interpreted : BuildError
  device_flag bad_device bad_bind_values unknown_bound missing_bound : BuildError
  bad_tensor not_none bad_dtype key_error : (name : String) → BuildError
  cannot_canonicalize : (name : String) → BuildError
  bad_grid not_positional : BuildError

-- `None`, a mapping, or something else.
pub data GivenMapping : Type 0 where
  absent : GivenMapping
  mapping : List (Value × Value) → GivenMapping
  other_mapping : GivenMapping

-- `dynamic_options`: one string, something that cannot be iterated, or a sequence.
pub data GivenNames : Type 0 where
  one_text not_iterable : GivenNames
  sequence : List Value → GivenNames

-- `MakeLauncherOption`, as far as it is checked. `kernel_cache` and `torch_access_mode` say whether the
-- value has the type that it must have, `grid_py` whether it is callable.
pub record MakeLauncherOption : Type 0 where
  pub no_gpu : Value
  pub verify_annotation : Value
  pub return_compiled : Value
  pub assume_constant_globals : Value
  pub ndebug : Value
  pub extra_annotation : GivenMapping
  pub options : GivenMapping
  pub kernel_cache : Bool
  pub torch_access_mode : Option Bool
  pub dynamic_options : GivenNames
  pub grid_arg : Value
  pub grid_cpp : Option Function
  pub grid_py : Option Bool
  pub bind_device : Value
  pub bind_values : GivenMapping

abbrev pub is_bool_value : Value → Bool
is_bool_value (Value.bool b) = true
is_bool_value _ = false

abbrev pub is_str : Value → Bool
is_str (Value.str s) = true
is_str _ = false

unfoldable pub check_flags : List (String × Value) → Result BuildError (Unit {0})
check_flags [] = ok tt
check_flags ((name, flag) ∷ rest) = do
  refuse (not (is_bool_value flag)) (not_bool name)
  check_flags rest

-- `isinstance(mapping, Mapping) and all(type(k) is str for k in mapping)`
abbrev pub keyed_by_str : GivenMapping → Bool
keyed_by_str absent = false
keyed_by_str (mapping items) = all (λ e. is_str e.0) items
keyed_by_str other_mapping = false

abbrev pub is_absent : GivenMapping → Bool
is_absent absent = true
is_absent (mapping items) = false
is_absent other_mapping = false

unfoldable pub check_mapping : String → GivenMapping → Result BuildError (Unit {0})
check_mapping name m = refuse (not (is_absent m) && not (keyed_by_str m)) (not_mapping name)

-- A mapping's truth.
abbrev pub is_filled : GivenMapping → Bool
is_filled absent = false
is_filled (mapping []) = false
is_filled (mapping (e ∷ items)) = true
is_filled other_mapping = true

unfoldable pub names_of_values : List Value → Result BuildError (List String)
names_of_values [] = ok []
names_of_values (Value.str s ∷ rest) = names_of_values rest >>= λ names. ok (s ∷ names)
names_of_values (v ∷ rest) = err name_not_str

unfoldable pub declared_names : GivenNames → Result BuildError (List String)
unfolding names_of_values
declared_names one_text = err one_string
declared_names not_iterable = err not_a_sequence
declared_names (sequence values) = names_of_values values

-- `type(grid_arg) is not int or grid_arg not in (1, 2, 3)`, negated.
abbrev pub is_dims : Value → Bool
is_dims (Value.int z) = eqb_ℤ z (pos 1) || eqb_ℤ z (pos 2) || eqb_ℤ z (pos 3)
is_dims _ = false

abbrev pub one_of : Bool → ℕ
one_of true = 1
one_of false = 0

abbrev pub not_callable : Option Bool → Bool
not_callable (some false) = true
not_callable _ = false

abbrev pub wrong_access : Option Bool → Bool
wrong_access (some false) = true
wrong_access _ = false

abbrev pub is_filled_list : List String → Bool
is_filled_list [] = false
is_filled_list (n ∷ rest) = true

-- `_check_values`
unfoldable pub check_values : MakeLauncherOption → Result BuildError (List String)
unfolding check_flags check_mapping declared_names
check_values o = do
  check_flags (
      ("no_gpu", o.no_gpu)
      ∷ ("verify_annotation", o.verify_annotation)
      ∷ ("return_compiled", o.return_compiled)
      ∷ ("assume_constant_globals", o.assume_constant_globals)
      ∷ ("ndebug", o.ndebug)
      ∷ [])
  check_mapping "extra_annotation" o.extra_annotation
  check_mapping "options" o.options
  refuse (not o.kernel_cache) bad_kernel_cache
  refuse (wrong_access o.torch_access_mode) bad_access_mode
  declared ← declared_names o.dynamic_options
  refuse (not (is_none o.grid_arg) && not (is_dims o.grid_arg)) bad_grid_arg
  refuse
      (ltb 1 (
        one_of (not (is_none o.grid_arg))
        + one_of (is_some o.grid_cpp)
        + one_of (is_some o.grid_py)))
      several_grids
  refuse (not_callable o.grid_py) grid_not_callable
  refuse (is_true o.no_gpu && is_filled_list declared) dynamic_needs_gpu
  refuse (is_true o.no_gpu && is_filled o.options) options_need_gpu
  refuse (is_true o.no_gpu && is_true o.return_compiled) compiled_needs_gpu
  ok declared
