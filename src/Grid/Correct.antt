-- ===== src/Grid/Correct.antt =====
-- About grid.py, `emit`: lowered expressions, one case for each kind of node.
use intj.Prelude.{
  ℕ, ◌+◌, ◌≤◌, ◌≡◌, refl, sym, subst, ap, ◌∙◌, String, Bool, true, false, not, ◌||◌, none, some, [],
  ◌∷◌, ◌++◌, Result, ok, err, ◌>>=◌, bind_elim, refuse-eq-ok, ok-inj, arith, ◌^◌, if◌then◌else◌,
  Bool-cases, Option-cases, inl, inr,
}
use intj.Prelude.Int.{ℤ, pos, int64_min, fits_int64, eqb_ℤ, ltb_ℤ, eqb_ℤ_iff, ◌-ℤ◌}
use intj.Prelude.Dict.{Dict, lookup}
use intj.Grid.Syntax.{
  uadd, usub, Expr, int_constant, bool_constant, load, unary, binary, call, if_expr, other,
}
use intj.Grid.Code.{
  Operation, RunError, zero_literal, variable, Code, end, declare, set, branch, ◌then◌, Store, read,
  write, operate, in_int64, execute,
}
use intj.Grid.Emit.{
  GridKind, int_kind, bool_kind, kind_eq, Scope, Emitted, emitted, operation_of, Function2,
  min_call, cdiv_call, resolve_callee, is_min_literal, bool_int, call_code, is_bool, emit,
  literal_outside, bad_operands, branches_differ,
}
use intj.Grid.Meaning.{
  Scalar, int_value, bool_value, as_int, kind_of, operator_value, call_value, unary_value, evaluate,
}
use intj.Grid.Stores.{
  Below, Below-weaken, execute-branch, execute-min, enter-Below, read_self, read-append_ok,
  write_self,
}
use intj.Grid.Matches.{
  Matches, Agrees, Agrees-append, Agrees-lookup, emit-le_serial, Matches-then, operation-Matches,
  define-Matches, operation_of-meaning, resolve_callee-meaning, min_flip, kind_eq-eq, side_lem,
  conditional-Matches, Matches-Returns,
}

-- The lowering of `e`, wherever it stands.
abbrev Lowered : Scope → Dict Scalar → Expr → Type 0
Lowered sc env e =
    (k : ℕ) (s : Store) (r : Emitted)
    → Below k s
    → Agrees sc.bound env s
    → emit sc e k ≡ ok r
    → Matches k s r (evaluate operate env e) (execute r.code s)

read_operand :
    (k v : ℕ) (s : Store) {z : ℤ} → Below k s → read v s ≡ ok z → read v ((k, none) ∷ s) ≡ ok z
read_operand k v s b h = read-append_ok k v ((k, none) ∷ []) s b (omega arith, tt) h

-- `min` and `triton.cdiv` of two integers.
call-Matches :
    (k : ℕ) (s : Store) (c : Code) (fn : Function2) (l r : ℕ) (x y : Scalar)
    → Below k s
    → read l s ≡ ok (as_int x)
    → read r s ≡ ok (as_int y)
    → int_kind ≡ kind_of x
    → int_kind ≡ kind_of y
    → Matches k s
        (emitted c k int_kind (k + 1))
        (call_value operate (some fn) x y)
        (execute (call_code fn l r k) s)
unfolding execute call_code call_value
call-Matches k s c min_call l r (int_value x) (int_value y) b hl hr kx ky = (
  (k, some (if ltb_ℤ y x then y else x)) ∷ [],
  execute-min k l r s ((k, none) ∷ s) (enter-Below k none s b) (read_operand k l s b hl)
        (read_operand k r s b hr)
      ∙ ap (λ z. write k z ((k, none) ∷ s)) (min_flip x y)
      ∙ write_self k (if ltb_ℤ y x then y else x) none s,
  (omega arith, tt),
  (omega arith, Below-weaken k (k + 1) s (omega arith) b),
  min_kind (ltb_ℤ y x),
  read_self k (if ltb_ℤ y x then y else x) s ∙ min_int (ltb_ℤ y x),
)
  where
    min_kind : (t : Bool) → int_kind ≡ kind_of (if t then int_value y else int_value x)
    min_kind true = refl
    min_kind false = refl

    min_int :
        (t : Bool)
        → ◌≡◌ {A = Result RunError ℤ}
            (ok (if t then y else x))
            (ok (as_int (if t then int_value y else int_value x)))
    min_int true = refl
    min_int false = refl
call-Matches k s c min_call l r (bool_value x) y b hl hr kx ky = cc
call-Matches k s c min_call l r (int_value x) (bool_value y) b hl hr kx ky = cc
call-Matches k s c cdiv_call l r x y b hl hr kx ky =
    operation-Matches k s c Operation.cdiv (variable l) (variable r) b (read_operand k l s b hl)
      (read_operand k r s b hr)

is_int : (a b : GridKind) → is_bool a || is_bool b ≡ false → (a ≡ int_kind) × (b ≡ int_kind)
is_int int_kind int_kind h = (refl, refl)
is_int int_kind bool_kind h = cc
is_int bool_kind b h = cc

-- A conditional whose test has been computed.
branch-Matches :
    (sc : Scope) (env : Dict Scalar) (t x y : Emitted) (body orelse : Expr) (s : Store) (v : Scalar)
    (c : Code)
    → Lowered sc env body
    → Lowered sc env orelse
    → Below t.serial s
    → Agrees sc.bound env s
    → read t.temp s ≡ ok (as_int v)
    → emit sc body (t.serial + 1) ≡ ok x
    → emit sc orelse x.serial ≡ ok y
    → x.kind ≡ y.kind
    → Matches t.serial s
        (emitted c t.serial x.kind y.serial)
        (if eqb_ℤ (as_int v) (pos 0)
          then evaluate operate env orelse
          else evaluate operate env body)
        (execute
          (declare t.serial (
            branch t.temp
              (x.code then set t.serial x.temp end)
              (y.code then set t.serial y.temp end)
              end))
          s)
branch-Matches sc env t x y body orelse s v c hb ho b a ht hx hy kinds =
    let n : ℕ = t.serial in
    let inside : Store = (n, none) ∷ s in
    let b' : Below (n + 1) inside = (omega arith, Below-weaken n (n + 1) s (omega arith) b) in
    let a' : Agrees sc.bound env inside =
      Agrees-append sc.bound env n ((n, none) ∷ []) s b (omega arith, tt) a in
    let lx : n + 1 ≤ x.serial = emit-le_serial sc body (n + 1) hx in
    let ly : x.serial ≤ y.serial = emit-le_serial sc orelse x.serial hy in
    let mx = hb (n + 1) inside x b' a' hx in
    let my = ho x.serial inside y (Below-weaken (n + 1) x.serial inside lx b') a' hy in
    let e =
      execute-branch n t.temp (x.code then set n x.temp end) (y.code then set n y.temp end) s inside
        (enter-Below n none s b) (read_operand n t.temp s b ht) in
    elim (Bool-cases (eqb_ℤ (as_int v) (pos 0))) [
      | inl zero_test ↦
          rw (e, zero_test, side_lem n x.serial s y (evaluate operate env orelse) lx my)
            (conditional-Matches n y.serial s c x.kind (evaluate operate env orelse) b (omega arith)
              (rw kinds (Matches-Returns _ _ y _ _ my)))
      | inr nonzero ↦
          rw (e, nonzero, side_lem n (n + 1) s x (evaluate operate env body) (omega arith) mx)
            (conditional-Matches n y.serial s c x.kind (evaluate operate env body) b (omega arith)
              (Matches-Returns _ _ x _ _ mx))
    ]

-- `+` makes an integer of a bool, which C holds as one already.
plus-Matches :
    (k : ℕ) (s : Store) (x : Emitted) (m : Result RunError Scalar) (out : Result RunError Store)
    → Matches k s x m out
    → Matches k s (emitted x.code x.temp int_kind x.serial) (m >>= unary_value operate uadd) out
unfolding unary_value
plus-Matches k s x (ok v) out (extra, e, f, b, kind, value) = (extra, e, f, b, refl, value)
plus-Matches k s x (err e) out h = h

evaluate-load :
    (env : Dict Scalar) (n : String) {v : Scalar}
    → lookup n env ≡ some v
    → evaluate operate env (load n) ≡ ok v
unfolding evaluate
evaluate-load env n h = rw (h, evaluate) refl

-- The one literal that only its negation holds.
evaluate-lowest :
    (env : Dict Scalar) (e : Expr)
    → is_min_literal e ≡ true
    → evaluate operate env (unary usub e) ≡ ok (int_value int64_min)
unfolding is_min_literal evaluate unary_value operate in_int64 fits_int64 ◌-ℤ◌
evaluate-lowest env (int_constant z) h = rw ((eqb_ℤ_iff z (pos (2 ^ 63))).0 h) refl
evaluate-lowest env (bool_constant v) h = cc
evaluate-lowest env (load n) h = cc
evaluate-lowest env (unary o e) h = cc
evaluate-lowest env (binary o l r) h = cc
evaluate-lowest env (call f l r) h = cc
evaluate-lowest env (if_expr t x y) h = cc
evaluate-lowest env (other names) h = cc

-- Two operands in sequence, and what follows them.
operands-Matches :
    (sc : Scope) (env : Dict Scalar) (l r : Expr) (k : ℕ) (s : Store) (x y q : Emitted) (c : Code)
    (f : Scalar → Scalar → Result RunError Scalar)
    → Lowered sc env l
    → Lowered sc env r
    → Below k s
    → Agrees sc.bound env s
    → emit sc l k ≡ ok x
    → emit sc r x.serial ≡ ok y
    → ((v w : Scalar) (t : Store)
        → Below y.serial t
        → x.kind ≡ kind_of v
        → y.kind ≡ kind_of w
        → read x.temp t ≡ ok (as_int v)
        → read y.temp t ≡ ok (as_int w)
        → Matches y.serial t q (f v w) (execute c t))
    → Matches k s q
        (evaluate operate env l >>= λ v. evaluate operate env r >>= f v)
        (execute (x.code then y.code then c) s)
operands-Matches sc env l r k s x y q c f hl hr b a hx hy next =
    Matches-then k s x q (y.code then c) (evaluate operate env l)
      (λ v. evaluate operate env r >>= f v) (emit-le_serial sc l k hx) (hl k s x b a hx)
      λ v extra g bx kx vx.
        Matches-then x.serial (extra ++ s) y q c (evaluate operate env r) (f v)
          (emit-le_serial sc r x.serial hy)
          (hr x.serial (extra ++ s) y bx (Agrees-append sc.bound env k extra s b g a) hy)
          λ w more g2 by ky vy.
            next v w (more ++ (extra ++ s)) by kx ky
              (read-append_ok x.serial x.temp more (extra ++ s) bx g2 vx) vy

-- Lowered code does what Python's evaluation does with the C arithmetic: it leaves the same value in
-- the temp, of the kind that was told, or stops with the same error.
pub emit-Lowered : (sc : Scope) (env : Dict Scalar) (e : Expr) → Lowered sc env e
unfolding emit evaluate execute unary_value operator_value
emit-Lowered sc env (int_constant z) k s r b a h =
    let last = ok-inj (refuse-eq-ok _ literal_outside _ h).1 in
    subst (λ q. Matches k s q (ok (int_value z)) (execute q.code s)) last
      (define-Matches k s z (int_value z) b refl)
emit-Lowered sc env (bool_constant v) k s r b a h =
    subst (λ q. Matches k s q (ok (bool_value v)) (execute q.code s)) (ok-inj h)
      (define-Matches k s (bool_int v) (bool_value v) b refl)
emit-Lowered sc env (load n) k s r b a h = elim (Option-cases (lookup n sc.bound)) [
  | inl missing ↦ cc (rw (missing, emit) at h)
  | inr ((t, kind), found) ↦
      let (v, e, kd, value) = Agrees-lookup sc.bound env s n {t = t} {kind = kind} a found in
      subst (λ m. Matches k s r m (execute r.code s)) (sym (evaluate-load env n e))
        (subst (λ q. Matches k s q (ok v) (execute q.code s)) (ok-inj (rw (found, emit) at h))
          ([], refl, tt, b, kd, value))
]
emit-Lowered sc env (unary uadd e) k s r b a h = bind_elim (emit sc e k) _ h λ x hx last.
    subst (λ q. Matches k s q (evaluate operate env (unary uadd e)) (execute q.code s))
      (ok-inj last)
      (plus-Matches k s x (evaluate operate env e) _ (emit-Lowered sc env e k s x b a hx))
emit-Lowered sc env (unary usub e) k s r b a h = elim (Bool-cases (is_min_literal e)) [
  | inl lowest ↦ rw (evaluate-lowest env e lowest) (
      subst (λ q. Matches k s q (ok (int_value int64_min)) (execute q.code s))
        (ok-inj (rw (lowest, emit) at h))
        (define-Matches k s int64_min (int_value int64_min) b refl))
  | inr general ↦ bind_elim (emit sc e k) _ (rw (general, emit) at h) λ x hx last.
      subst (λ q. Matches k s q (evaluate operate env (unary usub e)) (execute q.code s))
        (ok-inj last)
        (Matches-then k s x (emitted end x.serial int_kind (x.serial + 1)) _
          (evaluate operate env e) (unary_value operate usub) (emit-le_serial sc e k hx)
          (emit-Lowered sc env e k s x b a hx)
          λ v extra f bx kx vx.
            operation-Matches x.serial (extra ++ s) end Operation.sub zero_literal (variable x.temp)
              bx refl (read_operand x.serial x.temp (extra ++ s) bx vx))
]
emit-Lowered sc env (binary o l r) k s q b a h = bind_elim (operation_of o) _ h λ op hop h1.
    bind_elim (emit sc l k) _ h1 λ x hx h2. bind_elim (emit sc r x.serial) _ h2 λ y hy last.
      rw (operation_of-meaning o hop) (
        subst
          (λ z.
            Matches k s z
              (evaluate operate env l >>= λ v.
                evaluate operate env r >>= operator_value operate (some op) v)
              (execute z.code s))
          (ok-inj last)
          (operands-Matches sc env l r k s x y (emitted end y.serial int_kind (y.serial + 1)) _
            (operator_value operate (some op)) (emit-Lowered sc env l) (emit-Lowered sc env r) b a
            hx hy
            λ v w t bt kv kw rv rw'.
              operation-Matches y.serial t end op (variable x.temp) (variable y.temp) bt
                (read_operand y.serial x.temp t bt rv) (read_operand y.serial y.temp t bt rw')))
emit-Lowered sc env (call f l r) k s q b a h = bind_elim (resolve_callee sc f) _ h λ fn hfn h1.
    bind_elim (emit sc l k) _ h1 λ x hx h2. bind_elim (emit sc r x.serial) _ h2 λ y hy h3.
      let last = refuse-eq-ok (is_bool x.kind || is_bool y.kind) bad_operands _ h3 in
      rw (resolve_callee-meaning sc f hfn) (
        subst
          (λ z.
            Matches k s z
              (evaluate operate env l >>= λ v.
                evaluate operate env r >>= call_value operate (some fn) v)
              (execute z.code s))
          (ok-inj last.1)
          (operands-Matches sc env l r k s x y (emitted end y.serial int_kind (y.serial + 1)) _
            (call_value operate (some fn)) (emit-Lowered sc env l) (emit-Lowered sc env r) b a hx hy
            λ v w t bt kv kw rv rw'.
              call-Matches y.serial t end fn x.temp y.temp v w bt rv rw'
                (sym (is_int x.kind y.kind last.0).0 ∙ kv)
                (sym (is_int x.kind y.kind last.0).1 ∙ kw)))
emit-Lowered sc env (if_expr test body orelse) k s q b a h =
    bind_elim (emit sc test k) _ h λ t ht h1.
      bind_elim (emit sc body (t.serial + 1)) _ h1 λ x hx h2.
        bind_elim (emit sc orelse x.serial) _ h2 λ y hy h3.
          let last = refuse-eq-ok (not (kind_eq x.kind y.kind)) branches_differ _ h3 in
          subst
            (λ z.
              Matches k s z (evaluate operate env (if_expr test body orelse)) (execute z.code s))
            (ok-inj last.1)
            (Matches-then k s t (emitted end t.serial x.kind y.serial) _ (evaluate operate env test)
              (λ v.
                if eqb_ℤ (as_int v) (pos 0)
                then evaluate operate env orelse
                else evaluate operate env body)
              (emit-le_serial sc test k ht) (emit-Lowered sc env test k s t b a ht)
              λ v extra f b1 kind value.
                branch-Matches sc env t x y body orelse (extra ++ s) v end
                  (emit-Lowered sc env body) (emit-Lowered sc env orelse) b1
                  (Agrees-append sc.bound env k extra s b f a) value hx hy
                  (kind_eq-eq x.kind y.kind last.0))
emit-Lowered sc env (other names) k s r b a h = cc
