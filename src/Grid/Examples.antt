-- ===== src/Grid/Examples.antt =====
-- A grid function of a kernel parameter `n` and an extra `block`:
-- `tiles = triton.cdiv(n, block); return (min(tiles, 65535), 2 if block else -1)`
use intj.Prelude.{
  ◌≡◌, refl, String, true, false, none, some, List, [], ◌∷◌, Result, ok, err, ◌>>=◌, str_eq,
  if◌then◌else◌,
}
use intj.Prelude.Int.{ℤ, pos, negsuc, fits_int64, floor_div, ◌+ℤ◌, ◌-ℤ◌, ◌*ℤ◌}
use intj.Prelude.Dict.{lookup, insert}
use intj.Prelude.Names.{contains}
use intj.Values.{Value}
use intj.ScalarTypes.{argument}
use intj.Annotation.{auto, CanonicalAnnotation}
use intj.Specialization.Calls.{Param}
use intj.Grid.Syntax.{
  usub, named, attribute, int_constant, load, unary, call, if_expr, Statement, docstring, assign,
  returned, stored, stored_all, stored_in, int_type, text, Arg, builtin_min, triton_module,
  FunctionDef, Function,
}
use intj.Grid.Code.{
  Code, Operation, operate, in_int64, quotient, remainder, grid_floor128, execute, read, write,
  enter, leave, operand_value, grid_output, grid_input_int, grid_input_bool, grid_input_dep, ◌then◌,
  division_by_zero,
}
use intj.Grid.Emit.{
  int_kind, emit, operation_of, resolve_callee, is_min_literal, call_code, kind_eq,
}
use intj.Grid.Meaning.{evaluate, python, unary_value, operator_value, call_value}
use intj.Grid.Compile.{
  GridCode, Parameter, compile_grid, ordered_args, names_eq, params_by_name, parameters, parameter,
  hint_kind, extras_of, emit_inputs, place_of, public_place, index_of, baked_at, baked_literal,
  bind_inputs, emit_body, emit_all, output_temps, ends_in_return, scope_of, resolves_min,
  resolves_cdiv, without_docstring,
}
use intj.Grid.Run.{
  run_grid, run_inputs, run_outputs, input_value, input_of_value, call_value_of, call_locals,
  argument_scalar, body_value, evaluate_all, dimensions, python_call, python_locals, body_scalars,
}
use intj.Grid.Elements.{Same}
use intj.Grid.Exact.{operate-python}
use intj.Grid.Whole.{compile_grid-refines}
use intj.Grid.Python.{Faithful, compile_grid-Faithful}

-- Every declaration that unfolds it computes with the definitions named here.
program : Unit {0}
unfolding fits_int64 floor_div ◌+ℤ◌ ◌-ℤ◌ ◌*ℤ◌ lookup insert contains operate in_int64 quotient
    remainder grid_floor128 execute read write enter leave operand_value grid_output grid_input_int
    grid_input_bool grid_input_dep ◌then◌ emit operation_of resolve_callee is_min_literal call_code
    kind_eq evaluate python unary_value operator_value call_value compile_grid ordered_args names_eq
    params_by_name parameters parameter hint_kind extras_of emit_inputs place_of public_place
    index_of baked_at baked_literal bind_inputs emit_body emit_all output_temps ends_in_return
    scope_of resolves_min resolves_cdiv run_grid run_inputs run_outputs input_value input_of_value
    call_value_of call_locals argument_scalar body_value evaluate_all dimensions python_call
    python_locals body_scalars stored stored_all stored_in
program = tt

abbrev any_argument : CanonicalAnnotation
any_argument = record {
  kind = argument;
  types = none;
  equal_to_one = auto;
  aligned_16 = auto;
  pointer_range_32 = auto;
  facts = [];
  power_of_two_or_zero = false;
  bind_value = none;
  baked_value = none;
  key_fields = [];
  tuned = false;
  exact_key = false;
  triton_typed = false;
  tensor_only = false;
  none_ok = false;
  ptr_range = false;
}

abbrev kernel_params : List Param
kernel_params =
    record { name = "n"; index = 0; call_index = some 0; annotation = any_argument; memo = none }
    ∷ []

abbrev named_arg : String → Arg
named_arg name = record { arg = name; has_annotation = true }

abbrev statements : List Statement
statements =
    docstring
    ∷ assign "tiles" (call (attribute "triton" "cdiv") (load "n") (load "block"))
    ∷ returned (
        call (named "min") (load "tiles") (int_constant (pos 65535))
        ∷ if_expr (load "block") (int_constant (pos 2)) (unary usub (int_constant (pos 1)))
        ∷ [])
    ∷ []

abbrev definition : FunctionDef
definition = record {
  name = "grid";
  has_decorators = false;
  positional_only = [];
  positional = named_arg "n" ∷ [];
  keyword_only = named_arg "block" ∷ [];
  has_vararg = false;
  has_kwarg = false;
  has_defaults = false;
  has_kw_defaults = false;
  body = statements;
}

abbrev grid_function : Function
grid_function = record {
  is_function = true;
  freevars = [];
  name = "grid";
  varnames = "n" ∷ "block" ∷ "tiles" ∷ [];
  argcount = 1;
  has_defaults = false;
  has_kwdefaults = false;
  annotations = ("n", int_type) ∷ ("block", text "int") ∷ [];
  globals = ("triton", triton_module) ∷ [];
  builtins = some (("min", builtin_min) ∷ []);
  source = some (some definition);
}

abbrev int_parameters : List Parameter
int_parameters =
    record { name = "n"; kind = int_kind; is_extra = false }
    ∷ record { name = "block"; kind = int_kind; is_extra = true }
    ∷ []

-- What `compile_grid` returns.
abbrev or_empty {ℓ} : {E : Type ℓ} → Result E GridCode → GridCode
or_empty (ok g) = g
or_empty (err e) = record { extras = []; inputs = []; body = Code.end; outputs = [] }

code : GridCode
unfolding program
code = or_empty (compile_grid true grid_function kernel_params [] none 0)

compiled : compile_grid true grid_function kernel_params [] none 0 ≡ ok code
unfolding program code
compiled = refl

abbrev call_args : ℤ → ℤ → String → Value
call_args n block name = if str_eq name "n" then Value.int n else Value.int block

-- The extra comes first.
abbrev objects : ℤ → ℤ → List Value
objects n block = Value.int block ∷ Value.int n ∷ []

runs : run_grid code (objects (pos 1000) (pos 64)) [] ≡ ok (16 ∷ 2 ∷ [])
unfolding program code
runs = refl

divides_by_zero : run_grid code (objects (pos 1000) (pos 0)) [] ≡ err division_by_zero
unfolding program code
divides_by_zero = refl

compile_grid-refines_example : Same (run_grid code (objects (pos 1000) (pos 64)) []) (
    call_value_of operate
      (call_args (pos 1000) (pos 64))
      int_parameters
      (without_docstring statements))
unfolding program code
compile_grid-refines_example =
    compile_grid-refines true grid_function kernel_params [] none 0 definition int_parameters code
      (call_args (pos 1000) (pos 64)) (objects (pos 1000) (pos 64)) [] refl refl compiled
      (refl, (refl, tt))

compile_grid-Faithful_example :
    Faithful
      (call_args (negsuc 6) (pos 64))
      (run_grid code (objects (negsuc 6) (pos 64)) [])
      (python_call (call_args (negsuc 6) (pos 64)) int_parameters (without_docstring statements))
unfolding program code
compile_grid-Faithful_example =
    compile_grid-Faithful true grid_function kernel_params [] none 0 definition int_parameters code
      (call_args (negsuc 6) (pos 64)) (objects (negsuc 6) (pos 64)) [] refl refl compiled
      (refl, (refl, tt))

operate-python_example :
    operate Operation.cdiv (negsuc 6) (pos 4)
    ≡ (python Operation.cdiv (negsuc 6) (pos 4) >>= in_int64)
operate-python_example = operate-python Operation.cdiv (negsuc 6) (pos 4)
