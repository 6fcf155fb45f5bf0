-- ===== src/Grid/Elements.antt =====
-- About grid.py, `compile_grid`: the elements of the result, lowered in order.
use mathlib.Core.List.{append_assoc}
use intj.Prelude.{
  ℕ, ◌≤◌, ◌≡◌, refl, subst, String, Bool, true, false, List, [], ◌∷◌, ◌++◌, All-append, Result, ok,
  err, ◌>>=◌, bind_elim, refuse-eq-ok, ok-inj, arith, ltb, str_eq, Bool-cases, if◌then◌else◌, inl,
  inr,
}
use intj.Prelude.Int.{ℤ, pos, negsuc}
use intj.Prelude.Dict.{Dict, insert}
use intj.Grid.Syntax.{Expr}
use intj.Grid.Code.{
  RunError, overflow, division_by_zero, bad_dimension, undefined, not_an_int, not_a_bool,
  not_a_tensor, Code, ◌then◌, Store, read, operate, execute, grid_output,
}
use intj.Grid.Emit.{not_integers, GridKind, is_bool, Scope, Emitted, emit}
use intj.Grid.Meaning.{Scalar, as_int, kind_of, evaluate}
use intj.Grid.Stores.{Below, From, From-weaken, read-append_ok, execute-then}
use intj.Grid.Matches.{Matches, Agrees, Agrees-append, emit-le_serial, is_raised}
use intj.Grid.Correct.{emit-Lowered}
use intj.Grid.Compile.{emit_all, output_temps}
use intj.Grid.Run.{run_outputs, evaluate_all, dimensions}

-- An assignment binds a name on both sides.
pub Agrees-insert :
    (bound : Dict (ℕ × GridKind)) (env : Dict Scalar) (s : Store) (n : String) (t : ℕ)
    (kind : GridKind) (v : Scalar)
    → kind ≡ kind_of v
    → read t s ≡ ok (as_int v)
    → Agrees bound env s
    → Agrees (insert n (t, kind) bound) (insert n v env) s
unfolding insert
Agrees-insert [] [] s n t kind v k r a = (refl, k, r, tt)
Agrees-insert [] (e ∷ env) s n t kind v k r a = absurd a
Agrees-insert (x ∷ bound) [] s n t kind v k r a = absurd a
Agrees-insert ((j, (t', kind')) ∷ bound) ((m, w) ∷ env) s n t kind v k r a =
    let e : j ≡ m = a.0 in
    rw (← e) (elim (Bool-cases (str_eq j n)) [
      | inl hit ↦ rw hit (refl, k, r, a.3)
      | inr miss ↦ rw miss (refl, a.1, a.2, Agrees-insert bound env s n t kind v k r a.3)
    ])

-- Each result has its value in its variable, in order.
unfoldable pub Results : List (ℕ × GridKind) → List Scalar → Store → Type 0
Results [] [] s = Unit
Results [] (v ∷ vs) s = ⊥
Results (x ∷ xs) [] s = ⊥
Results ((t, kind) ∷ xs) (v ∷ vs) s = (read t s ≡ ok (as_int v)) × Results xs vs s

-- Lowered elements run on to their values, or stop with the error that comes first.
unfoldable pub AllMatch :
    ℕ → List (ℕ × GridKind) → Store → Result RunError (List Scalar) → Result RunError Store → Type 0
AllMatch k xs s (ok vs) out =
    (extra : Store) × (out ≡ ok (extra ++ s)) × From k extra × Results xs vs (extra ++ s)
AllMatch k xs s (err e) out = (out ≡ err e) × (is_raised e ≡ true)

Results-append :
    (k : ℕ) (xs : List (ℕ × GridKind)) (vs : List Scalar) (extra s : Store)
    → Below k s
    → From k extra
    → Results xs vs s
    → Results xs vs (extra ++ s)
unfolding Results
Results-append k [] [] extra s b f h = tt
Results-append k [] (v ∷ vs) extra s b f h = h
Results-append k (x ∷ xs) [] extra s b f h = h
Results-append k ((t, kind) ∷ xs) (v ∷ vs) extra s b f h =
    (read-append_ok k t extra s b f h.0, Results-append k xs vs extra s b f h.1)

-- One element, then the others.
AllMatch-cons :
    (k : ℕ) (x : Emitted) (xs : List (ℕ × GridKind)) (s : Store) (c : Code)
    (m : Result RunError Scalar) (ms : Result RunError (List Scalar))
    → k ≤ x.serial
    → Matches k s x m (execute x.code s)
    → ((v : Scalar) (t : Store) (extra : Store)
        → t ≡ extra ++ s
        → From k extra
        → Below x.serial t
        → AllMatch x.serial xs t ms (execute c t))
    → AllMatch k
        ((x.temp, x.kind) ∷ xs)
        s
        (m >>= λ v. ms >>= λ vs. ok (v ∷ vs))
        (execute (x.code then c) s)
unfolding AllMatch Results
AllMatch-cons k x xs s c (err e) ms le (out, raised) next =
    rw (execute-then x.code c s, out) (refl, raised)
AllMatch-cons k x xs s c (ok v) (err e) le (extra, out, f, b, kind, value) next =
    rw (execute-then x.code c s, out) (next v (extra ++ s) extra refl f b)
AllMatch-cons k x xs s c (ok v) (ok vs) le (extra, out, f, b, kind, value) next =
    let (more, e, g, r) = next v (extra ++ s) extra refl f b in
    let p : (more ++ extra) ++ s ≡ more ++ (extra ++ s) = append_assoc more extra s in
    (
      more ++ extra,
      rw (execute-then x.code c s, out, p) e,
      All-append _ more extra (From-weaken k x.serial more le g) f,
      rw p (read-append_ok x.serial x.temp more (extra ++ s) b g value, r),
    )

pub emit_all-AllMatch :
    (sc : Scope) (env : Dict Scalar) (es : List Expr) (k : ℕ) (s : Store) {c : Code}
    {xs : List (ℕ × GridKind)}
    → Below k s
    → Agrees sc.bound env s
    → emit_all sc es k ≡ ok (c, xs)
    → AllMatch k xs s (evaluate_all operate env es) (execute c s)
unfolding emit_all evaluate_all
emit_all-AllMatch sc env [] k s b a h =
    subst (λ (q : Code × List (ℕ × GridKind)). AllMatch k q.1 s (ok []) (execute q.0 s)) (ok-inj h)
      (unfold AllMatch Results execute in ([], refl, tt, tt))
emit_all-AllMatch sc env (e ∷ es) k s {c} {xs} b a h = bind_elim (emit sc e k) _ h λ x hx h1.
    bind_elim (emit_all sc es x.serial) _ h1 λ q hq last.
      subst
        (λ (z : Code × List (ℕ × GridKind)).
          AllMatch k z.1 s (evaluate_all operate env (e ∷ es)) (execute z.0 s))
        (ok-inj last)
        (AllMatch-cons k x q.1 s q.0 (evaluate operate env e) (evaluate_all operate env es)
          (emit-le_serial sc e k hx) (emit-Lowered sc env e k s x b a hx)
          λ v t extra p f bt.
            emit_all-AllMatch sc env es x.serial t {c = q.0} {xs = q.1} bt
              (rw p (Agrees-append sc.bound env k extra s b f a)) hq)

-- The stored dimensions are those of the values.
run_outputs_lem :
    (xs : List (ℕ × GridKind)) (vs : List Scalar) (t : Store) {outputs : List ℕ}
    → output_temps xs ≡ ok outputs
    → Results xs vs t
    → run_outputs outputs t ≡ dimensions vs
unfolding output_temps Results run_outputs dimensions
run_outputs_lem [] [] t {outputs} h r = subst (λ o. run_outputs o t ≡ ok []) (ok-inj h) refl
run_outputs_lem [] (v ∷ vs) t h r = absurd r
run_outputs_lem (x ∷ xs) [] t h r = absurd r
run_outputs_lem ((u, kind) ∷ xs) (v ∷ vs) t {outputs} h r =
    bind_elim (output_temps xs) _ (refuse-eq-ok (is_bool kind) not_integers _ h).1 λ others ho last.
      subst (λ o. run_outputs o t ≡ dimensions (v ∷ vs)) (ok-inj last)
        (rw (r.0, run_outputs_lem xs vs t ho r.1) refl)

-- An error that the source raises on purpose.
abbrev pub is_defined : RunError → Bool
is_defined overflow = true
is_defined division_by_zero = true
is_defined bad_dimension = true
is_defined undefined = false
is_defined (not_an_int n) = true
is_defined (not_a_bool n) = true
is_defined (not_a_tensor n) = true

abbrev pub Defined : Result RunError (List ℕ) → Type 0
Defined (ok x) = Unit
Defined (err e) = is_defined e ≡ true

-- Two runs have one outcome, and a defined one.
abbrev pub Same : Result RunError (List ℕ) → Result RunError (List ℕ) → Type 0
Same native reference = (native ≡ reference) × Defined reference

pub raised-is_defined : (e : RunError) → is_raised e ≡ true → is_defined e ≡ true
raised-is_defined e h = ground arith

dimensions-Defined : (vs : List Scalar) → Defined (dimensions vs)
unfolding dimensions grid_output
dimensions-Defined [] = tt
dimensions-Defined (v ∷ vs) = by_value (as_int v) (dimensions vs) (dimensions-Defined vs)
  where
    by_value :
        (z : ℤ) (m : Result RunError (List ℕ))
        → Defined m
        → Defined (grid_output z >>= λ n. m >>= λ others. ok (n ∷ others))
    by_value (negsuc n) m h = refl
    by_value (pos n) (ok x) h = elim (Bool-cases (ltb n 4294967296)) [
      | inl e ↦ rw e tt
      | inr e ↦ rw e refl
    ]
    by_value (pos n) (err x) h = elim (Bool-cases (ltb n 4294967296)) [
      | inl e ↦ rw e h
      | inr e ↦ rw e refl
    ]

pub outputs-Results :
    (k : ℕ) (xs : List (ℕ × GridKind)) (s : Store) (m : Result RunError (List Scalar))
    (out : Result RunError Store) {outputs : List ℕ}
    → output_temps xs ≡ ok outputs
    → AllMatch k xs s m out
    → Same (out >>= run_outputs outputs) (m >>= dimensions)
unfolding AllMatch
outputs-Results k xs s (ok vs) out h (extra, e, f, r) =
    rw e (run_outputs_lem xs vs (extra ++ s) h r, dimensions-Defined vs)
outputs-Results k xs s (err e) out h (p, raised) = rw p (refl, raised-is_defined e raised)
