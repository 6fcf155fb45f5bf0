-- ===== src/Grid/Whole.antt =====
-- About grid.py, `compile_grid`: an evaluator as a whole against Python's call of the function.

use intj.Prelude.{
  ℕ, suc, ◌+◌, ◌≡◌, refl, subst, String, Bool, true, false, not, ◌||◌, ◌==◌, map, Option, some,
  List, [], ◌∷◌, ◌++◌, length, All, Result, ok, err, ◌>>=◌, bind_elim, refuse-eq-ok, ok-inj, arith,
  str_eq, if◌then◌else◌,
}
use intj.Prelude.Int.{ℤ, fits_int64}
use intj.Prelude.Dict.{Dict, insert}
use intj.Values.{Value}
use intj.Grid.Syntax.{
  Statement, docstring, assign, returned, returned_other, other_statement, FunctionDef, Function,
  Arg,
}
use intj.Grid.Code.{
  RunError, Code, ◌then◌, Store, read, enter, operate, execute, in_int64, grid_input_int,
  grid_input_bool, grid_input_dep,
}
use intj.Grid.Emit.{
  bad_result, not_a_function, free_variables, decorated, has_defaults, wrong_parameters, no_return,
  GridKind, int_kind, bool_kind, bool_int, is_bool, Scope, Emitted, emit,
}
use intj.Grid.Meaning.{Scalar, as_int, kind_of, evaluate}
use intj.Grid.Stores.{Below, From, Below-weaken, enter-Below, read_self, execute-then}
use intj.Grid.Matches.{Matches, Agrees, Agrees-append}
use intj.Grid.Correct.{emit-Lowered}
use intj.Grid.Compile.{
  Place, argument, dependent, literal, Input, GridCode, Parameter, Sources, place_of, emit_inputs,
  bind_inputs, emit_all, output_temps, bad_count, emit_body, compile_grid, ordered_args,
  params_by_name, parameters, extras_of, scope_of, without_docstring, ends_in_return, is_loose,
  names_eq, take,
}
use intj.Specialization.Calls.{Param}
use intj.Grid.Run.{
  get_elem?, Deps, input_of_value, input_value, run_inputs, run_outputs, run_grid, argument_scalar,
  call_locals, evaluate_all, body_value, call_value_of,
}
use intj.Grid.Elements.{
  Agrees-insert, emit_all-AllMatch, outputs-Results, Same, is_defined, raised-is_defined,
}

-- Statements lowered in a scope compute the dimensions that Python's body returns.
body_lem :
    (sc : Scope) (env : Dict Scalar) (statements : List Statement) (k : ℕ) (s : Store) {c : Code}
    {outputs : List ℕ}
    → Below k s
    → Agrees sc.bound env s
    → emit_body sc statements k ≡ ok (c, outputs)
    → Same (execute c s >>= run_outputs outputs) (body_value operate env statements)
unfolding emit_body body_value
body_lem sc env (assign target e ∷ rest) k s b a h = bind_elim (emit sc e k) _ h λ x hx h1.
    bind_elim
      (emit_body (record sc { bound = insert target (x.temp, x.kind) sc.bound }) rest x.serial) _ h1
      λ q hq last.
        subst
          (λ (z : Code × List ℕ).
            Same (execute z.0 s >>= run_outputs z.1)
              (body_value operate env (assign target e ∷ rest)))
          (ok-inj last)
          (assignment (evaluate operate env e) x q (emit-Lowered sc env e k s x b a hx)
            λ v t extra p f bt kind value.
              body_lem (record sc { bound = insert target (x.temp, x.kind) sc.bound })
                (insert target v env) rest x.serial t {c = q.0} {outputs = q.1} bt
                (Agrees-insert sc.bound env t target x.temp x.kind v kind value
                  (rw p (Agrees-append sc.bound env k extra s b f a)))
                hq)
  where
    assignment :
        (m : Result RunError Scalar) (x : Emitted) (q : Code × List ℕ)
        → Matches k s x m (execute x.code s)
        → ((v : Scalar) (t extra : Store)
            → t ≡ extra ++ s
            → From k extra
            → Below x.serial t
            → x.kind ≡ kind_of v
            → read x.temp t ≡ ok (as_int v)
            → Same
                (execute q.0 t >>= run_outputs q.1)
                (body_value operate (insert target v env) rest))
        → Same
            (execute (x.code then q.0) s >>= run_outputs q.1)
            (m >>= λ v. body_value operate (insert target v env) rest)
    assignment (ok v) x q (extra, out, f, bt, kind, value) next =
        rw (execute-then x.code q.0 s, out) (next v (extra ++ s) extra refl f bt kind value)
    assignment (err e) x q (out, raised) next =
        rw (execute-then x.code q.0 s, out) (refl, raised-is_defined e raised)
body_lem sc env (returned es ∷ []) k s b a h =
    bind_elim (emit_all sc es k) _ (refuse-eq-ok (bad_count (length es)) bad_result _ h).1
      λ q hq h1. bind_elim (output_temps q.1) _ h1 λ outs houts last.
        subst
          (λ (z : Code × List ℕ).
            Same (execute z.0 s >>= run_outputs z.1) (body_value operate env (returned es ∷ [])))
          (ok-inj last)
          (outputs-Results k q.1 s (evaluate_all operate env es) (execute q.0 s) houts
            (emit_all-AllMatch sc env es k s {c = q.0} {xs = q.1} b a hq))
body_lem sc env [] k s b a h = cc
body_lem sc env (returned_other names ∷ []) k s b a h = cc
body_lem sc env (returned es ∷ t ∷ rest) k s b a h = cc
body_lem sc env (returned_other names ∷ t ∷ rest) k s b a h = cc
body_lem sc env (docstring ∷ rest) k s b a h = cc
body_lem sc env (other_statement names ∷ rest) k s b a h = cc

-- A pair of a tuned record stands for an argument.
abbrev pub Encodes : ℤ × Bool → Value → Type 0
Encodes (z, false) v = (v ≡ Value.int z) × (fits_int64 z ≡ true)
Encodes (z, true) v = (b : Bool) × (z ≡ bool_int b) × (v ≡ Value.bool b)

-- The place of a parameter holds its argument.
abbrev pub HoldsAt : List Value → Deps → Place → GridKind → Value → Type 0
HoldsAt args dep (argument n) kind v = get_elem? args n ≡ some v
HoldsAt args dep (dependent slot) kind v =
    (pair : ℤ × Bool) × (get_elem? dep slot ≡ some pair) × Encodes pair v
HoldsAt args dep (literal z) int_kind v = (v ≡ Value.int z) × (fits_int64 z ≡ true)
HoldsAt args dep (literal z) bool_kind v = (b : Bool) × (z ≡ bool_int b) × (v ≡ Value.bool b)

abbrev pub Holds : (String → Value) → List Value → Deps → List Input → Type 0
Holds given args dep inputs = All (λ i. HoldsAt args dep i.place i.kind (given i.name)) inputs

object_lem :
    (kind : GridKind) (name : String) (v : Value)
    → input_of_value kind name v ≡ (argument_scalar kind name v >>= λ x. ok (as_int x))
unfolding input_of_value argument_scalar grid_input_int grid_input_bool in_int64
object_lem int_kind name v = ground arith
object_lem bool_kind name v = ground arith

scalar_kind :
    (kind : GridKind) (name : String) (v : Value) {x : Scalar}
    → argument_scalar kind name v ≡ ok x
    → kind ≡ kind_of x
unfolding argument_scalar in_int64
scalar_kind int_kind name v h = ground arith
scalar_kind bool_kind name v h = ground arith

argument-is_defined :
    (kind : GridKind) (name : String) (v : Value) {e : RunError}
    → argument_scalar kind name v ≡ err e
    → is_defined e ≡ true
unfolding argument_scalar in_int64
argument-is_defined int_kind name v h = ground arith
argument-is_defined bool_kind name v h = ground arith

pair_lem :
    (kind : GridKind) (name : String) (pair : ℤ × Bool) (v : Value)
    → Encodes pair v
    → grid_input_dep pair (is_bool kind) name ≡ (argument_scalar kind name v >>= λ x. ok (as_int x))
unfolding argument_scalar in_int64 grid_input_dep
pair_lem int_kind name (z, false) v (e, f) = rw (e, f) refl
pair_lem int_kind name (z, true) v (b, e, f) = rw f refl
pair_lem bool_kind name (z, false) v (e, f) = rw e refl
pair_lem bool_kind name (z, true) v (b, e, f) = rw (e, f) refl

literal_lem :
    (args : List Value) (dep : Deps) (kind : GridKind) (name : String) (z : ℤ) (v : Value)
    → HoldsAt args dep (literal z) kind v
    → ok z ≡ (argument_scalar kind name v >>= λ x. ok (as_int x))
unfolding argument_scalar in_int64
literal_lem args dep int_kind name z v (e, f) = rw (e, f) refl
literal_lem args dep bool_kind name z v (b, e, f) = rw (e, f) refl

input_lem :
    (args : List Value) (dep : Deps) (place : Place) (kind : GridKind) (name : String) (t : ℕ)
    (v : Value)
    → HoldsAt args dep place kind v
    → input_value args dep (record { place = place; kind = kind; name = name; temp = t })
      ≡ (argument_scalar kind name v >>= λ x. ok (as_int x))
unfolding input_value
input_lem args dep (argument n) kind name t v h = rw (h, input_value) (object_lem kind name v)
input_lem args dep (dependent slot) kind name t v (pair, h, e) =
    rw (h, input_value) (pair_lem kind name pair v e)
input_lem args dep (literal z) kind name t v h = literal_lem args dep kind name z v h

-- The parameters' lines bind the arguments that Python binds, or raise what it raises; then what
-- follows does the same on both sides.
inputs_lem :
    (given : String → Value) (args : List Value) (dep : Deps) (src : Sources) (ps : List Parameter)
    (k : ℕ) (s : Store) (bound : Dict (ℕ × GridKind)) (env : Dict Scalar)
    (native : Store → Result RunError (List ℕ)) (reference : Dict Scalar → Result RunError (List ℕ))
    {inputs : List Input}
    → emit_inputs src ps k ≡ ok inputs
    → Holds given args dep inputs
    → Below k s
    → Agrees bound env s
    → ((t : Store) (locals : Dict Scalar)
        → Below (k + length ps) t
        → Agrees (bind_inputs inputs bound) locals t
        → Same (native t) (reference locals))
    → Same (run_inputs args dep inputs s >>= native) (call_locals given ps env >>= reference)
unfolding emit_inputs run_inputs call_locals bind_inputs
inputs_lem given args dep src [] k s bound env native reference {inputs} h holds b a next =
    subst
      (λ is.
        (Agrees (bind_inputs is bound) env s → Same (native s) (reference env))
        → Same (run_inputs args dep is s >>= native) (ok env >>= reference))
      (ok-inj h) (λ g. g a) (next s env (Below-weaken k (k + 0) s (omega arith) b))
inputs_lem given args dep src (p ∷ ps) k s bound env native reference {inputs} h holds b a next =
    bind_elim (place_of src p.name p.kind) _ h λ place hplace h1.
      bind_elim (emit_inputs src ps (k + 1)) _ h1 λ rest hrest last.
        subst
          (λ is.
            Holds given args dep is
            → ((t : Store) (locals : Dict Scalar)
                → Below (k + suc (length ps)) t
                → Agrees (bind_inputs is bound) locals t
                → Same (native t) (reference locals))
            → Same (run_inputs args dep is s >>= native)
                (call_locals given (p ∷ ps) env >>= reference))
          (ok-inj last)
          (λ hold go. rw (input_lem args dep place p.kind p.name k (given p.name) hold.0) (
            by_argument rest
              (λ t locals bt at.
                inputs_lem given args dep src ps (k + 1) t (insert p.name (k, p.kind) bound) locals
                  native reference hrest hold.1 bt at
                  (λ u more bu.
                    go u more
                      (Below-weaken (k + 1 + length ps) (k + suc (length ps)) u (omega arith) bu)))
              (argument_scalar p.kind p.name (given p.name)) refl))
          holds next
  where
    by_argument :
        (rest : List Input)
        → ((t : Store) (locals : Dict Scalar)
            → Below (k + 1) t
            → Agrees (insert p.name (k, p.kind) bound) locals t
            → Same
                (run_inputs args dep rest t >>= native)
                (call_locals given ps locals >>= reference))
        → (m : Result RunError Scalar) → argument_scalar p.kind p.name (given p.name) ≡ m
        → Same
            (((m >>= λ x. ok (as_int x)) >>= λ z.
                enter k (some z) s >>= λ t. run_inputs args dep rest t)
              >>= native)
            ((m >>= λ v. call_locals given ps (insert p.name v env)) >>= reference)
    by_argument rest again (err e) hm = (refl, argument-is_defined p.kind p.name (given p.name) hm)
    by_argument rest again (ok v) hm = rw (enter-Below k (some (as_int v)) s b) (
        again ((k, some (as_int v)) ∷ s) (insert p.name v env)
          (omega arith, Below-weaken k (k + 1) s (omega arith) b)
          (Agrees-insert bound env ((k, some (as_int v)) ∷ s) p.name k p.kind v
            (scalar_kind p.kind p.name (given p.name) hm) (read_self k (as_int v) s)
            (Agrees-append bound env k ((k, some (as_int v)) ∷ []) s b (omega arith, tt) a)))

-- Where `compile_grid` succeeds, and each parameter's place holds its argument, the evaluator
-- returns the dimensions that Python's call returns with the checked arithmetic of C, and with the
-- evaluator's checks of arguments and dimensions, or stops with the same error. What C leaves undefined
-- is never reached.
pub compile_grid-refines :
    (cdiv_unpatched : Bool) (fn : Function) (params : List Param) (baked : List (ℕ × Value))
    (deps : Option (Dict ℕ)) (offset : ℕ) (d : FunctionDef) (ps : List Parameter) (g : GridCode)
    (given : String → Value) (args : List Value) (dep : Deps)
    → fn.source ≡ some (some d)
    → parameters fn.annotations (params_by_name params []) (ordered_args d) ≡ ok ps
    → compile_grid cdiv_unpatched fn params baked deps offset ≡ ok g
    → Holds given args dep g.inputs
    → Same (run_grid g args dep) (call_value_of operate given ps (without_docstring d.body))
unfolding compile_grid run_grid call_value_of
compile_grid-refines cdiv_unpatched fn params baked deps offset d ps g given args dep hd hps h
      holds =
    let h1 = (refuse-eq-ok (not fn.is_function) not_a_function _ h).1 in
    let h2 = (refuse-eq-ok (not (length fn.freevars == 0)) free_variables _ h1).1 in
    let h3 = rw hd at h2 in
    let h4 = (refuse-eq-ok (d.has_decorators || not (str_eq d.name fn.name)) decorated _ h3).1 in
    let h5 = (refuse-eq-ok (is_loose fn d) has_defaults _ h4).1 in
    let names = map (λ (a : Arg × Bool). a.0.arg) (ordered_args d) in
    let h6 =
      (refuse-eq-ok (not (names_eq names (take (length (ordered_args d)) fn.varnames)))
        wrong_parameters _ h5).1 in
    let h7 = rw hps at h6 in
    let src : Sources = record {
      extras = extras_of ps;
      params = params_by_name params [];
      baked = baked;
      deps = deps;
      offset = offset;
    } in
    bind_elim (emit_inputs src ps 0) _ h7 λ inputs hin h8.
      bind_elim
        (emit_body (scope_of cdiv_unpatched fn d ps (bind_inputs inputs []))
          (without_docstring d.body) (length ps))
        _ (refuse-eq-ok (not (ends_in_return (without_docstring d.body))) no_return _ h8).1
        λ q hq last.
          subst
            (λ z.
              Holds given args dep z.inputs
              → Same (run_grid z args dep)
                  (call_value_of operate given ps (without_docstring d.body)))
            (ok-inj last)
            (λ hold.
              inputs_lem given args dep src ps 0 [] [] [] (λ t. execute q.0 t >>= run_outputs q.1)
                (λ env. body_value operate env (without_docstring d.body)) hin hold tt tt
                λ t locals bt at.
                  body_lem (scope_of cdiv_unpatched fn d ps (bind_inputs inputs [])) locals
                    (without_docstring d.body) (length ps) t {c = q.0} {outputs = q.1}
                    (Below-weaken (0 + length ps) (length ps) t (omega arith) bt) at hq)
            holds
