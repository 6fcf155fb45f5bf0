-- ===== src/Grid/Python.antt =====
-- About grid.py: an evaluator against Python's own call, which has no checks and no bounds.
use intj.Prelude.{
  ℕ, ◌≡◌, refl, String, Bool, true, false, ◌||◌, Option, some, List, [], ◌∷◌, map, any, Result, ok,
  err, ◌>>=◌, ltb, arith, Bool-cases, inl, inr,
}
use intj.Prelude.Int.{ℤ, pos, negsuc, ltb_ℤ, leb_ℤ, fits_int64}
use intj.Prelude.Dict.{Dict, insert}
use intj.Values.{Value}
use intj.Specialization.Calls.{Param}
use intj.Grid.Syntax.{Statement, FunctionDef, Function}
use intj.Grid.Code.{
  RunError, overflow, division_by_zero, undefined, bad_dimension, not_an_int, not_a_bool,
  not_a_tensor, operate, in_int64, grid_output,
}
use intj.Grid.Emit.{GridKind, int_kind, bool_kind}
use intj.Grid.Meaning.{Scalar, int_value, bool_value, as_int, python}
use intj.Grid.Compile.{
  Parameter, GridCode, compile_grid, parameters, params_by_name, ordered_args, without_docstring,
}
use intj.Grid.Run.{
  Deps, run_grid, call_locals, dimensions, body_value, call_value_of, argument_scalar, body_scalars,
  python_locals, python_scalar, python_call,
}
use intj.Grid.Stores.{bind_assoc}
use intj.Grid.Elements.{Defined}
use intj.Grid.Exact.{Close, operate-Close}
use intj.Grid.Whole.{Holds, compile_grid-refines}
use intj.Grid.Bodies.{body-Close, body_value-scalars, Computes, body-Computes}

-- A number is no grid dimension.
abbrev pub is_outside : Scalar → Bool
is_outside v = ltb_ℤ (as_int v) (pos 0) || leb_ℤ (pos 4294967296) (as_int v)

-- The exact types of arguments, of which a bool is no int.
abbrev pub is_int : Value → Bool
is_int (Value.int z) = true
is_int _ = false

abbrev pub is_bool_object : Value → Bool
is_bool_object (Value.bool b) = true
is_bool_object _ = false

-- What the outcome of an evaluator says of Python's own call: the same integers; the same
-- ZeroDivisionError; a result outside of [0, 2**32); or an argument that is not of the annotated type.
-- Only OverflowError says nothing.
abbrev pub Faithful :
    (String → Value) → Result RunError (List ℕ) → Result RunError (List Scalar) → Type 0
Faithful given (ok ns) m = (vs : List Scalar) × (m ≡ ok vs) × (map as_int vs ≡ map pos ns)
Faithful given (err overflow) m = Unit
Faithful given (err division_by_zero) m = m ≡ err division_by_zero
Faithful given (err bad_dimension) m = (vs : List Scalar) × (m ≡ ok vs) × (any is_outside vs ≡ true)
Faithful given (err undefined) m = ⊥
Faithful given (err (not_an_int n)) m = is_int (given n) ≡ false
Faithful given (err (not_a_bool n)) m = is_bool_object (given n) ≡ false
Faithful given (err (not_a_tensor n)) m = ⊥

-- The dimensions of a list of values, or one that is none.
abbrev Stands : List Scalar → Result RunError (List ℕ) → Type 0
Stands vs (ok ns) = map as_int vs ≡ map pos ns
Stands vs (err bad_dimension) = any is_outside vs ≡ true
Stands vs (err overflow) = ⊥
Stands vs (err division_by_zero) = ⊥
Stands vs (err undefined) = ⊥
Stands vs (err (not_an_int n)) = ⊥
Stands vs (err (not_a_bool n)) = ⊥
Stands vs (err (not_a_tensor n)) = ⊥

dimensions-Stands : (vs : List Scalar) → Stands vs (dimensions vs)
unfolding dimensions grid_output
dimensions-Stands [] = refl
dimensions-Stands (v ∷ vs) = by_value (as_int v) refl (dimensions vs) (dimensions-Stands vs)
  where
    inside :
        (n : ℕ) (m : Result RunError (List ℕ))
        → as_int v ≡ pos n
        → Stands vs m
        → Stands (v ∷ vs) (m >>= λ others. ok (n ∷ others))
    inside n (ok ns) e h = rw (e, h) refl
    inside n (err bad_dimension) e h = ground (arith, h)
    inside n (err overflow) e h = h
    inside n (err division_by_zero) e h = h
    inside n (err undefined) e h = h
    inside n (err (not_an_int k)) e h = h
    inside n (err (not_a_bool k)) e h = h
    inside n (err (not_a_tensor k)) e h = h

    by_value :
        (z : ℤ)
        → as_int v ≡ z
        → (m : Result RunError (List ℕ)) → Stands vs m
        → Stands (v ∷ vs) (grid_output z >>= λ n. m >>= λ others. ok (n ∷ others))
    by_value (negsuc n) e m h = rw e (ground arith)
    by_value (pos n) e m h = elim (Bool-cases (ltb n 4294967296)) [
      | inl within ↦ rw within (inside n m e h)
      | inr beyond ↦ rw (beyond, e) (ground arith)
    ]

dimensions-Faithful :
    (given : String → Value) (vs : List Scalar) → Faithful given (dimensions vs) (ok vs)
dimensions-Faithful given vs = by_outcome (dimensions vs) (dimensions-Stands vs)
  where
    by_outcome : (m : Result RunError (List ℕ)) → Stands vs m → Faithful given m (ok vs)
    by_outcome (ok ns) h = (vs, refl, h)
    by_outcome (err bad_dimension) h = (vs, refl, h)
    by_outcome (err overflow) h = absurd h
    by_outcome (err division_by_zero) h = absurd h
    by_outcome (err undefined) h = absurd h
    by_outcome (err (not_an_int k)) h = absurd h
    by_outcome (err (not_a_bool k)) h = absurd h
    by_outcome (err (not_a_tensor k)) h = absurd h

-- The evaluation of a body, and then the evaluator's dimensions, against Python's evaluation.
scalars-Faithful :
    (given : String → Value) (m m' : Result RunError (List Scalar))
    → Close m m'
    → Computes m
    → Defined (m >>= dimensions)
    → Faithful given (m >>= dimensions) m'
scalars-Faithful given (ok vs) m' c h d = rw c (dimensions-Faithful given vs)
scalars-Faithful given (err overflow) m' c h d = tt
scalars-Faithful given (err division_by_zero) m' c h d = c
scalars-Faithful given (err undefined) m' c h d = cc
scalars-Faithful given (err bad_dimension) m' c h d = absurd h
scalars-Faithful given (err (not_an_int k)) m' c h d = absurd h
scalars-Faithful given (err (not_a_bool k)) m' c h d = absurd h
scalars-Faithful given (err (not_a_tensor k)) m' c h d = absurd h

-- One argument, and what follows it.
argument-Faithful :
    (given : String → Value) (p : Parameter) (f : Scalar → Result RunError (List ℕ))
    (g : Scalar → Result RunError (List Scalar))
    → ((v : Scalar) → Defined (f v) → Faithful given (f v) (g v))
    → Defined (argument_scalar p.kind p.name (given p.name) >>= f)
    → Faithful given
        (argument_scalar p.kind p.name (given p.name) >>= f)
        (python_scalar (given p.name) >>= g)
unfolding argument_scalar in_int64
argument-Faithful given p f g next = by_value p.kind (given p.name) refl
  where
    by_value :
        (kind : GridKind) (v : Value)
        → given p.name ≡ v
        → Defined (argument_scalar kind p.name v >>= f)
        → Faithful given (argument_scalar kind p.name v >>= f) (python_scalar v >>= g)
    by_value int_kind (Value.int z) e d = elim (Bool-cases (fits_int64 z)) [
      | inl fits ↦ rw fits (next (int_value z) (rw fits at d))
      | inr beyond ↦ rw beyond tt
    ]
    by_value bool_kind (Value.bool b) e d = next (bool_value b) d
    by_value int_kind (Value.bool b) e d = rw e refl
    by_value int_kind Value.null e d = rw e refl
    by_value int_kind (Value.float x) e d = rw e refl
    by_value int_kind (Value.str x) e d = rw e refl
    by_value int_kind (Value.dtype x) e d = rw e refl
    by_value int_kind (Value.jit m q k) e d = rw e refl
    by_value int_kind (Value.object n) e d = rw e refl
    by_value bool_kind (Value.int z) e d = rw e refl
    by_value bool_kind Value.null e d = rw e refl
    by_value bool_kind (Value.float x) e d = rw e refl
    by_value bool_kind (Value.str x) e d = rw e refl
    by_value bool_kind (Value.dtype x) e d = rw e refl
    by_value bool_kind (Value.jit m q k) e d = rw e refl
    by_value bool_kind (Value.object n) e d = rw e refl

call-Faithful :
    (given : String → Value) (ps : List Parameter) (env : Dict Scalar) (statements : List Statement)
    → Defined (call_locals given ps env >>= λ e. body_value operate e statements)
    → Faithful given
        (call_locals given ps env >>= λ e. body_value operate e statements)
        (python_locals given ps env >>= λ e. body_scalars python e statements)
unfolding call_locals python_locals
call-Faithful given [] env statements d = rw (body_value-scalars operate env statements) (
    scalars-Faithful given (body_scalars operate env statements)
      (body_scalars python env statements) (body-Close operate python operate-Close env statements)
      (body-Computes env statements) (rw (body_value-scalars operate env statements) at d))
call-Faithful given (p ∷ ps) env statements d =
    let own = argument_scalar p.kind p.name (given p.name) in
    rw
      (
        bind_assoc own (λ v. call_locals given ps (insert p.name v env))
            (λ e. body_value operate e statements),
        bind_assoc (python_scalar (given p.name))
            (λ v. python_locals given ps (insert p.name v env))
            (λ e. body_scalars python e statements),
      )
      (argument-Faithful given p _ _ (λ v. call-Faithful given ps (insert p.name v env) statements)
        (rw
          (bind_assoc own (λ v. call_locals given ps (insert p.name v env))
            (λ e. body_value operate e statements))
          at d))

-- Where `compile_grid` succeeds, and each parameter's place holds its argument, Python's own call, which
-- has no checks and no bounds, returns the integers that the evaluator returns and raises
-- ZeroDivisionError where the evaluator does; where the evaluator refuses a dimension, Python's call
-- returns one outside of [0, 2**32); and where it raises TypeError, an argument is not of the annotated
-- type. Nothing is said where the evaluator raises OverflowError.
pub compile_grid-Faithful :
    (cdiv_unpatched : Bool) (fn : Function) (params : List Param) (baked : List (ℕ × Value))
    (deps : Option (Dict ℕ)) (offset : ℕ) (d : FunctionDef) (ps : List Parameter) (g : GridCode)
    (given : String → Value) (args : List Value) (dep : Deps)
    → fn.source ≡ some (some d)
    → parameters fn.annotations (params_by_name params []) (ordered_args d) ≡ ok ps
    → compile_grid cdiv_unpatched fn params baked deps offset ≡ ok g
    → Holds given args dep g.inputs
    → Faithful given (run_grid g args dep) (python_call given ps (without_docstring d.body))
unfolding call_value_of python_call
compile_grid-Faithful cdiv_unpatched fn params baked deps offset d ps g given args dep hd hps h
      holds =
    let (same, defined) =
      compile_grid-refines cdiv_unpatched fn params baked deps offset d ps g given args dep hd hps h
        holds in
    rw same (call-Faithful given ps [] (without_docstring d.body) defined)
