-- ===== src/Grid/Run.antt =====
-- grid.py and runtime/intj_runtime.h: what an evaluator does in a call, and what Python gives for a
-- call of the grid function.
use intj.Prelude.{
  ℕ, zero, suc, String, Bool, Option, none, some, List, [], ◌∷◌, Result, ok, err, ◌>>=◌,
}
use intj.Prelude.Int.{ℤ}
use intj.Prelude.Dict.{Dict, insert}
use intj.Values.{Value}
use intj.Grid.Syntax.{Expr, Statement, docstring, assign, returned, returned_other, other_statement}
use intj.Grid.Code.{
  RunError, undefined, not_an_int, not_a_bool, Store, read, enter, execute, in_int64, grid_output,
  grid_input_int, grid_input_bool, grid_input_dep,
}
use intj.Grid.Emit.{GridKind, int_kind, bool_kind, is_bool}
use intj.Grid.Meaning.{Scalar, int_value, bool_value, as_int, Arithmetic, evaluate, python}
use intj.Grid.Compile.{argument, dependent, literal, Input, GridCode, Parameter}

abbrev pub get_elem? {ℓ} : {A : Type ℓ} → List A → ℕ → Option A
get_elem? [] i = none
get_elem? (x ∷ xs) zero = some x
get_elem? (x ∷ xs) (suc i) = get_elem? xs i

-- The record's pairs (value, 1 if it was a bool).
abbrev pub Deps : Type 0
Deps = List (ℤ × Bool)

unfoldable pub input_of_value : GridKind → String → Value → Result RunError ℤ
unfolding grid_input_int grid_input_bool
input_of_value int_kind name v = grid_input_int name v
input_of_value bool_kind name v = grid_input_bool name v

-- The lines that read one parameter.
unfoldable pub input_value : List Value → Deps → Input → Result RunError ℤ
unfolding input_of_value grid_input_dep
input_value args dep i = elim i.place [
  | argument n ↦ elim (get_elem? args n) [
    | none ↦ err undefined
    | some v ↦ input_of_value i.kind i.name v
  ]
  | dependent slot ↦ elim (get_elem? dep slot) [
    | none ↦ err undefined
    | some pair ↦ grid_input_dep pair (is_bool i.kind) i.name
  ]
  | literal z ↦ ok z
]

unfoldable pub run_inputs : List Value → Deps → List Input → Store → Result RunError Store
unfolding input_value enter
run_inputs args dep [] s = ok s
run_inputs args dep (i ∷ rest) s = do
  z ← input_value args dep i
  t ← enter i.temp (some z) s
  run_inputs args dep rest t

-- `dims`, as far as it is written.
unfoldable pub run_outputs : List ℕ → Store → Result RunError (List ℕ)
unfolding read grid_output
run_outputs [] s = ok []
run_outputs (t ∷ rest) s = do
  z ← read t s
  n ← grid_output z
  others ← run_outputs rest s
  ok (n ∷ others)

-- `intj_eval_grid`
unfoldable pub run_grid : GridCode → List Value → Deps → Result RunError (List ℕ)
unfolding run_inputs run_outputs execute
run_grid g args dep = do
  s ← run_inputs args dep g.inputs []
  t ← execute g.body s
  run_outputs g.outputs t

-- A Python argument for a parameter of a kind, with the checks that an evaluator makes.
unfoldable pub argument_scalar : GridKind → String → Value → Result RunError Scalar
unfolding in_int64
argument_scalar int_kind name (Value.int z) = in_int64 z >>= λ n. ok (int_value n)
argument_scalar int_kind name _ = err (not_an_int name)
argument_scalar bool_kind name (Value.bool b) = ok (bool_value b)
argument_scalar bool_kind name _ = err (not_a_bool name)

-- The function's locals after the call is bound.
unfoldable pub call_locals :
    (given : String → Value) → List Parameter → Dict Scalar → Result RunError (Dict Scalar)
unfolding argument_scalar
call_locals given [] env = ok env
call_locals given (p ∷ rest) env = do
  v ← argument_scalar p.kind p.name (given p.name)
  call_locals given rest (insert p.name v env)

module _ (ar : Arithmetic) where
  unfoldable pub evaluate_all : Dict Scalar → List Expr → Result RunError (List Scalar)
  unfolding evaluate
  evaluate_all env [] = ok []
  evaluate_all env (e ∷ rest) = do
    v ← evaluate ar env e
    others ← evaluate_all env rest
    ok (v ∷ others)

-- The dimensions that a result stands for, with the check of an evaluator.
unfoldable pub dimensions : List Scalar → Result RunError (List ℕ)
unfolding grid_output
dimensions [] = ok []
dimensions (v ∷ rest) = do n ← grid_output (as_int v); others ← dimensions rest; ok (n ∷ others)

module _ (ar : Arithmetic) where
  -- Assignments, and a return.
  unfoldable pub body_value : Dict Scalar → List Statement → Result RunError (List ℕ)
  unfolding evaluate evaluate_all dimensions
  body_value env (assign target e ∷ rest) = do
    v ← evaluate ar env e
    body_value (insert target v env) rest
  body_value env (returned es ∷ rest) = evaluate_all ar env es >>= dimensions
  body_value env (returned_other names ∷ rest) = err undefined
  body_value env (docstring ∷ rest) = body_value env rest
  body_value env (other_statement names ∷ rest) = err undefined
  body_value env [] = err undefined

  -- A call of the function with the arguments `given`, and the evaluator's checks of arguments and
  -- dimensions.
  unfoldable pub call_value_of :
      (given : String → Value) → List Parameter → List Statement → Result RunError (List ℕ)
  unfolding call_locals body_value
  call_value_of given ps statements = do env ← call_locals given ps []; body_value env statements

module _ (ar : Arithmetic) where
  -- The body alone: the values that it returns.
  unfoldable pub body_scalars : Dict Scalar → List Statement → Result RunError (List Scalar)
  unfolding evaluate evaluate_all
  body_scalars env (assign target e ∷ rest) = do
    v ← evaluate ar env e
    body_scalars (insert target v env) rest
  body_scalars env (returned es ∷ rest) = evaluate_all ar env es
  body_scalars env (returned_other names ∷ rest) = err undefined
  body_scalars env (docstring ∷ rest) = body_scalars env rest
  body_scalars env (other_statement names ∷ rest) = err undefined
  body_scalars env [] = err undefined

-- An argument as it is. Values other than ints and bools are left out.
abbrev pub python_scalar : Value → Result RunError Scalar
python_scalar (Value.int z) = ok (int_value z)
python_scalar (Value.bool b) = ok (bool_value b)
python_scalar _ = err undefined

unfoldable pub python_locals :
    (given : String → Value) → List Parameter → Dict Scalar → Result RunError (Dict Scalar)
python_locals given [] env = ok env
python_locals given (p ∷ rest) env = do
  v ← python_scalar (given p.name)
  python_locals given rest (insert p.name v env)

-- Python's own call, which checks neither the types of arguments nor any range.
unfoldable pub python_call :
    (given : String → Value) → List Parameter → List Statement → Result RunError (List Scalar)
unfolding python_locals body_scalars python
python_call given ps statements = do
  env ← python_locals given ps []
  body_scalars python env statements
