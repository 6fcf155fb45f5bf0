-- ===== src/Grid/Compile.antt =====
-- grid.py: `compile_grid`, from the function to the evaluator. The lines of `intj_eval_grid` come in
-- three parts: those that read the parameters, those of the statements, and those that store the result.
use intj.Prelude.{
  ℕ, zero, suc, ◌+◌, String, Bool, true, false, not, ◌&&◌, ◌||◌, Option, none, some, List, [], ◌∷◌,
  ◌++◌, map, length, leb, ◌==◌, Result, ok, err, ◌>>=◌, ◌>>◌, refuse, str_eq, if◌then◌else◌,
}
use intj.Prelude.Int.{ℤ, fits_int64}
use intj.Prelude.Dict.{Dict, lookup, insert}
use intj.Prelude.Names.{contains}
use intj.Values.{Value}
use intj.Annotation.{is_some}
use intj.Specialization.Calls.{Param}
use intj.Grid.Syntax.{
  Expr, Statement, docstring, assign, returned, returned_other, other_statement, Hint, int_type,
  bool_type, text, other_hint, Arg, Object, builtin_min, triton_module, FunctionDef, Function,
  stored_in,
}
use intj.Grid.Code.{Code, end, ◌then◌}
use intj.Grid.Emit.{
  GridError, not_a_function, free_variables, no_source, not_one_def, decorated, has_defaults,
  wrong_parameters, bad_annotation, names_kernel, not_kernel, bound_parameter, wrong_type,
  outside_int64, no_return, bad_statement, bad_result, not_integers, key_error, GridKind, int_kind,
  bool_kind, Scope, bool_int, is_bool, emit,
}

-- Where the evaluator finds a parameter: an object of the call, a value of the tuned record, or a
-- literal.
pub data Place : Type 0 where
  argument : ℕ → Place
  dependent : (slot : ℕ) → Place
  literal : ℤ → Place

pub record Input : Type 0 where
  pub place : Place
  pub kind : GridKind
  pub name : String
  pub temp : ℕ

-- `outputs` are the temps of `dims[0]`, `dims[1]` and `dims[2]`.
pub record GridCode : Type 0 where
  pub extras : List String
  pub inputs : List Input
  pub body : Code
  pub outputs : List ℕ

-- A parameter of the grid function, its annotated kind, and whether it is keyword-only.
pub record Parameter : Type 0 where
  pub name : String
  pub kind : GridKind
  pub is_extra : Bool

abbrev pub flagged : Bool → List Arg → List (Arg × Bool)
flagged b args = map (λ a. (a, b)) args

-- `(*signature.posonlyargs, *signature.args, *signature.kwonlyargs)`
unfoldable pub ordered_args : FunctionDef → List (Arg × Bool)
ordered_args d =
    flagged false d.positional_only ++ (flagged false d.positional ++ flagged true d.keyword_only)

unfoldable pub names_eq : List String → List String → Bool
names_eq [] [] = true
names_eq (x ∷ xs) (y ∷ ys) = str_eq x y && names_eq xs ys
names_eq [] (y ∷ ys) = false
names_eq (x ∷ xs) [] = false

abbrev pub take : ℕ → List String → List String
take zero xs = []
take (suc n) [] = []
take (suc n) (x ∷ xs) = x ∷ take n xs

unfoldable pub hint_kind : Option Hint → Option GridKind
hint_kind none = none
hint_kind (some int_type) = some int_kind
hint_kind (some bool_type) = some bool_kind
hint_kind (some (text t)) =
    if str_eq t "int" then some int_kind else if str_eq t "bool" then some bool_kind else none
hint_kind (some other_hint) = none

-- `{param.name: param for param in params}`
unfoldable pub params_by_name : List Param → Dict Param → Dict Param
params_by_name [] d = d
params_by_name (p ∷ rest) d = params_by_name rest (insert p.name p d)

abbrev pub annotated : Arg → Option GridKind → Result GridError GridKind
annotated a none = err (bad_annotation a.arg)
annotated a (some kind) = if a.has_annotation then ok kind else err (bad_annotation a.arg)

-- One round of the loop that fills `kinds` and `extras`.
unfoldable pub parameter : Dict Hint → Dict Param → Arg × Bool → Result GridError Parameter
unfolding hint_kind
parameter hints params (a, is_extra) = do
  kind ← annotated a (hint_kind (lookup a.arg hints))
  refuse (is_extra && is_some (lookup a.arg params)) (names_kernel a.arg)
  refuse (not is_extra && not (is_some (lookup a.arg params))) (not_kernel a.arg)
  ok (record { name = a.arg; kind = kind; is_extra = is_extra })

unfoldable pub parameters :
    Dict Hint → Dict Param → List (Arg × Bool) → Result GridError (List Parameter)
unfolding parameter
parameters hints params [] = ok []
parameters hints params (a ∷ rest) = do
  p ← parameter hints params a
  ps ← parameters hints params rest
  ok (p ∷ ps)

unfoldable pub extras_of : List Parameter → List String
extras_of [] = []
extras_of (p ∷ rest) = if p.is_extra then p.name ∷ extras_of rest else extras_of rest

-- `extras.index(name)`
unfoldable pub index_of : List String → String → ℕ
index_of [] n = 0
index_of (x ∷ xs) n = if str_eq x n then 0 else index_of xs n + 1

-- `baked[index]`
unfoldable pub baked_at : List (ℕ × Value) → ℕ → Result GridError Value
baked_at [] i = err key_error
baked_at ((j, v) ∷ rest) i = if j == i then ok v else baked_at rest i

-- A baked value that fits the annotation, as the literal of C.
unfoldable pub baked_literal : GridKind → String → Value → Result GridError ℤ
baked_literal int_kind name (Value.int z) = refuse (not (fits_int64 z)) (outside_int64 name) >> ok z
baked_literal int_kind name _ = err (wrong_type name)
baked_literal bool_kind name (Value.bool b) = ok (bool_int b)
baked_literal bool_kind name _ = err (wrong_type name)

-- What the lines for a parameter depend on.
pub record Sources : Type 0 where
  pub extras : List String
  pub params : Dict Param
  pub baked : List (ℕ × Value)
  pub deps : Option (Dict ℕ)
  pub offset : ℕ

abbrev pub dep_slot : Option (Dict ℕ) → String → Option ℕ
dep_slot none name = none
dep_slot (some deps) name = lookup name deps

abbrev pub found : Option Param → Result GridError Param
found none = err key_error
found (some p) = ok p

-- A kernel parameter that no tuner gives.
unfoldable pub public_place : Sources → GridKind → Param → Result GridError Place
unfolding baked_at baked_literal
public_place src kind p = elim p.call_index [
  | some i ↦ ok (argument (length src.extras + src.offset + i))
  | none ↦
      if is_some p.annotation.bind_value
      then err (bound_parameter p.name)
      else baked_at src.baked p.index >>= λ v. baked_literal kind p.name v >>= λ z. ok (literal z)
]

unfoldable pub place_of : Sources → String → GridKind → Result GridError Place
unfolding public_place index_of
place_of src name kind =
    if contains src.extras name
    then ok (argument (index_of src.extras name))
    else found (lookup name src.params) >>= λ p. elim (dep_slot src.deps name) [
      | some slot ↦ ok (dependent slot)
      | none ↦ public_place src kind p
    ]

-- The loop that emits the parameters' lines; `serial` counts the temps.
unfoldable pub emit_inputs : Sources → List Parameter → ℕ → Result GridError (List Input)
unfolding place_of
emit_inputs src [] serial = ok []
emit_inputs src (p ∷ rest) serial = do
  place ← place_of src p.name p.kind
  others ← emit_inputs src rest (serial + 1)
  ok (record { place = place; kind = p.kind; name = p.name; temp = serial } ∷ others)

-- `bound` after that loop.
unfoldable pub bind_inputs : List Input → Dict (ℕ × GridKind) → Dict (ℕ × GridKind)
bind_inputs [] bound = bound
bind_inputs (i ∷ rest) bound = bind_inputs rest (insert i.name (i.temp, i.kind) bound)

-- `emit` of each element of the result, in order.
unfoldable pub emit_all : Scope → List Expr → ℕ → Result GridError (Code × List (ℕ × GridKind))
unfolding emit
emit_all sc [] k = ok (end, [])
emit_all sc (e ∷ rest) k = do
  x ← emit sc e k
  (code, others) ← emit_all sc rest x.serial
  ok (x.code then code, (x.temp, x.kind) ∷ others)

unfoldable pub output_temps : List (ℕ × GridKind) → Result GridError (List ℕ)
output_temps [] = ok []
output_temps ((t, kind) ∷ rest) = do
  refuse (is_bool kind) not_integers
  others ← output_temps rest
  ok (t ∷ others)

abbrev pub bad_count : ℕ → Bool
bad_count n = not (leb 1 n && leb n 3)

-- The statements, which are assignments up to one return. An assignment binds its name to the temp.
unfoldable pub emit_body : Scope → List Statement → ℕ → Result GridError (Code × List ℕ)
unfolding emit emit_all output_temps
emit_body sc (assign target e ∷ rest) k = do
  x ← emit sc e k
  (code, outputs) ←
      emit_body (record sc { bound = insert target (x.temp, x.kind) sc.bound }) rest x.serial
  ok (x.code then code, outputs)
emit_body sc (returned es ∷ []) k = do
  refuse (bad_count (length es)) bad_result
  (code, dimensions) ← emit_all sc es k
  outputs ← output_temps dimensions
  ok (code, outputs)
emit_body sc (returned_other names ∷ []) k = err bad_result
emit_body sc (returned es ∷ s ∷ rest) k = err bad_statement
emit_body sc (returned_other names ∷ s ∷ rest) k = err bad_statement
emit_body sc (docstring ∷ rest) k = err bad_statement
emit_body sc (other_statement names ∷ rest) k = err bad_statement
emit_body sc [] k = err no_return

-- `statements[1:]` after a docstring
abbrev pub without_docstring : List Statement → List Statement
without_docstring (docstring ∷ rest) = rest
without_docstring statements = statements

-- `statements and isinstance(statements[-1], ast.Return)`
unfoldable pub ends_in_return : List Statement → Bool
ends_in_return [] = false
ends_in_return (returned es ∷ []) = true
ends_in_return (returned_other names ∷ []) = true
ends_in_return (docstring ∷ []) = false
ends_in_return (assign target e ∷ []) = false
ends_in_return (other_statement names ∷ []) = false
ends_in_return (s ∷ t ∷ rest) = ends_in_return (t ∷ rest)

abbrev pub one_def : Option (Option FunctionDef) → Result GridError FunctionDef
one_def none = err no_source
one_def (some none) = err not_one_def
one_def (some (some d)) = ok d

abbrev pub or_else : Option Object → Option Object → Option Object
or_else (some o) other = some o
or_else none other = other

abbrev pub is_min : Option Object → Bool
is_min (some builtin_min) = true
is_min _ = false

abbrev pub is_triton : Option Object → Bool
is_triton (some triton_module) = true
is_triton _ = false

abbrev pub builtin_of : Option (Dict Object) → String → Option Object
builtin_of none name = none
builtin_of (some d) name = lookup name d

-- `fn.__globals__.get("min", builtin_min) is _BUILTIN_MIN`, and not shadowed.
unfoldable pub resolves_min : Function → List String → Bool
resolves_min fn local_names =
    is_min (or_else (lookup "min" fn.globals) (builtin_of fn.builtins "min"))
    && not (contains local_names "min")

-- `cdiv_unpatched` is `triton.cdiv is _imports.cdiv`.
unfoldable pub resolves_cdiv : (cdiv_unpatched : Bool) → Function → List String → Bool
resolves_cdiv cdiv_unpatched fn local_names =
    is_triton (lookup "triton" fn.globals) && cdiv_unpatched && not (contains local_names "triton")

-- A signature that could bind a call in more than one way.
abbrev pub is_loose : Function → FunctionDef → Bool
is_loose fn d =
    d.has_vararg || d.has_kwarg || d.has_defaults || d.has_kw_defaults || fn.has_defaults
    || fn.has_kwdefaults

unfoldable pub scope_of :
    (cdiv_unpatched : Bool) → Function → FunctionDef → List Parameter → Dict (ℕ × GridKind) → Scope
unfolding resolves_min resolves_cdiv
scope_of cdiv_unpatched fn d ps bound =
    let local_names = map (λ p. p.name) ps ++ stored_in d.body in
    record {
      bound = bound;
      min_is_builtin = resolves_min fn local_names;
      cdiv_is_triton = resolves_cdiv cdiv_unpatched fn local_names;
    }

-- `compile_grid`, whose `params` come by name.
unfoldable pub compile_grid :
    (cdiv_unpatched : Bool)
    → Function
    → List Param
    → (baked : List (ℕ × Value)) → (deps : Option (Dict ℕ)) → (offset : ℕ)
    → Result GridError GridCode
unfolding ordered_args names_eq params_by_name parameters extras_of emit_inputs bind_inputs
    emit_body ends_in_return scope_of
compile_grid cdiv_unpatched fn params baked deps offset = do
  refuse (not fn.is_function) not_a_function
  refuse (not (length fn.freevars == 0)) free_variables
  d ← one_def fn.source
  refuse (d.has_decorators || not (str_eq d.name fn.name)) decorated
  refuse (is_loose fn d) has_defaults
  let args = ordered_args d
  refuse (not (names_eq (map (λ a. a.0.arg) args) (take (length args) fn.varnames)))
      wrong_parameters
  let table = params_by_name params []
  ps ← parameters fn.annotations table args
  let src : Sources = record {
    extras = extras_of ps;
    params = table;
    baked = baked;
    deps = deps;
    offset = offset;
  }
  inputs ← emit_inputs src ps 0
  refuse (not (ends_in_return (without_docstring d.body))) no_return
  (body, outputs) ←
      emit_body (scope_of cdiv_unpatched fn d ps (bind_inputs inputs [])) (without_docstring d.body)
        (length ps)
  ok (record { extras = extras_of ps; inputs = inputs; body = body; outputs = outputs })
