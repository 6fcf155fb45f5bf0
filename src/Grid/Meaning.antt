-- ===== src/Grid/Meaning.antt =====
-- About grid.py: what Python gives for the expressions of a grid function, for any arithmetic on the
-- integers. Python's own never overflows; the emitted code has that of `operate`.
use intj.Prelude.{
  Bool, ◌&&◌, Option, none, some, Result, ok, err, ◌>>=◌, ◌>>◌, refuse, str_eq, if◌then◌else◌,
}
use intj.Prelude.Int.{ℤ, pos, ◌+ℤ◌, ◌-ℤ◌, ◌*ℤ◌, ltb_ℤ, eqb_ℤ, floor_div}
use intj.Prelude.Dict.{Dict, lookup}
use intj.Grid.Syntax.{
  UnaryOperator, uadd, usub, BinaryOperator, mult, floor_division, other_operator, Callee, named,
  attribute, other_callee, Expr, int_constant, bool_constant, load, unary, binary, call, if_expr,
  other,
}
use intj.Grid.Code.{Operation, add, sub, mul, floor, cdiv, RunError, division_by_zero, undefined}
use intj.Grid.Emit.{GridKind, int_kind, bool_kind, Function2, min_call, cdiv_call, bool_int}

pub data Scalar : Type 0 where
  int_value : ℤ → Scalar
  bool_value : Bool → Scalar

-- `int(v)`
abbrev pub as_int : Scalar → ℤ
as_int (int_value z) = z
as_int (bool_value b) = bool_int b

abbrev pub kind_of : Scalar → GridKind
kind_of (int_value z) = int_kind
kind_of (bool_value b) = bool_kind

abbrev pub Arithmetic : Type 0
Arithmetic = Operation → ℤ → ℤ → Result RunError ℤ

-- Python's `+`, `-`, `*` and `//`, and `(a + b - 1) // b`.
unfoldable pub python : Arithmetic
unfolding ◌+ℤ◌ ◌-ℤ◌ ◌*ℤ◌ floor_div
python add a b = ok (a +ℤ b)
python sub a b = ok (a -ℤ b)
python mul a b = ok (a *ℤ b)
python floor a b = refuse (eqb_ℤ b (pos 0)) division_by_zero >> ok (floor_div a b)
python cdiv a b = refuse (eqb_ℤ b (pos 0)) division_by_zero >> ok (floor_div (a +ℤ b -ℤ pos 1) b)

abbrev pub operator_meaning : BinaryOperator → Option Operation
operator_meaning BinaryOperator.add = some add
operator_meaning BinaryOperator.sub = some sub
operator_meaning mult = some mul
operator_meaning floor_division = some floor
operator_meaning other_operator = none

abbrev pub callee_meaning : Callee → Option Function2
callee_meaning (named f) = if str_eq f "min" then some min_call else none
callee_meaning (attribute value attr) =
    if str_eq attr "cdiv" && str_eq value "triton" then some cdiv_call else none
callee_meaning (other_callee names) = none

-- An operation of Python's on the integers of two values.
unfoldable pub operator_value :
    Arithmetic → Option Operation → Scalar → Scalar → Result RunError Scalar
operator_value ar none x y = err undefined
operator_value ar (some o) x y = ar o (as_int x) (as_int y) >>= λ z. ok (int_value z)

-- `min` gives its second argument only if it is smaller.
unfoldable pub call_value : Arithmetic → Option Function2 → Scalar → Scalar → Result RunError Scalar
call_value ar none x y = err undefined
call_value ar (some min_call) x y = ok (if ltb_ℤ (as_int y) (as_int x) then y else x)
call_value ar (some cdiv_call) x y = ar cdiv (as_int x) (as_int y) >>= λ z. ok (int_value z)

unfoldable pub unary_value : Arithmetic → UnaryOperator → Scalar → Result RunError Scalar
unary_value ar uadd x = ok (int_value (as_int x))
unary_value ar usub x = ar sub (pos 0) (as_int x) >>= λ z. ok (int_value z)

module _ (ar : Arithmetic) where
  unfoldable pub evaluate : Dict Scalar → Expr → Result RunError Scalar
  unfolding unary_value operator_value call_value
  evaluate env (int_constant z) = ok (int_value z)
  evaluate env (bool_constant b) = ok (bool_value b)
  evaluate env (load n) = elim (lookup n env) [ none ↦ err undefined | some v ↦ ok v ]
  evaluate env (unary o e) = evaluate env e >>= unary_value ar o
  evaluate env (binary o l r) = do
    x ← evaluate env l
    y ← evaluate env r
    operator_value ar (operator_meaning o) x y
  evaluate env (call f l r) = do
    x ← evaluate env l
    y ← evaluate env r
    call_value ar (callee_meaning f) x y
  evaluate env (if_expr test body orelse) =
      let taken = evaluate env body in
      let otherwise = evaluate env orelse in
      evaluate env test >>= λ t. if eqb_ℤ (as_int t) (pos 0) then otherwise else taken
  evaluate env (other names) = err undefined
