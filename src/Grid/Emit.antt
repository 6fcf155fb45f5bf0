-- ===== src/Grid/Emit.antt =====
-- grid.py: `emit`, the lowering of one expression. The lines that it appends are its result, and the
-- counter of `temp` is passed along.
use intj.Prelude.{
  ℕ, ◌+◌, String, Bool, true, false, not, ◌&&◌, ◌||◌, none, some, Result, ok, err, ◌>>=◌, ◌>>◌,
  refuse, str_eq, ◌^◌, if◌then◌else◌,
}
use intj.Prelude.Int.{ℤ, pos, int64_min, fits_int64, eqb_ℤ}
use intj.Prelude.Dict.{Dict, lookup}
use intj.Grid.Syntax.{
  uadd, usub, BinaryOperator, mult, floor_division, other_operator, Callee, named, attribute,
  other_callee, Expr, int_constant, bool_constant, load, unary, binary, call, if_expr, other,
}
use intj.Grid.Code.{
  Operation, Code, end, declare, define, checked, select_min, set, branch, ◌then◌, zero_literal,
  variable,
}

-- The messages of `GridError`, without the place; `key_error` is Python's own.
pub data GridError : Type 0 where
  not_a_function free_variables no_source not_one_def decorated has_defaults wrong_parameters :
      GridError
  bad_annotation names_kernel not_kernel bound_parameter wrong_type outside_int64 :
      (name : String) → GridError
  literal_outside bad_operator bad_min bad_cdiv bad_call bad_operands branches_differ unsupported :
      GridError
  unknown_name : (name : String) → GridError
  no_return bad_statement bad_result not_integers key_error : GridError

pub data GridKind : Type 0 where
  int_kind bool_kind : GridKind

unfoldable pub kind_eq : GridKind → GridKind → Bool
kind_eq int_kind int_kind = true
kind_eq bool_kind bool_kind = true
kind_eq int_kind bool_kind = false
kind_eq bool_kind int_kind = false

-- What `emit` reads of its surroundings: `bound`, and what `min` and `triton` resolve to.
pub record Scope : Type 0 where
  pub bound : Dict (ℕ × GridKind)
  pub min_is_builtin : Bool
  pub cdiv_is_triton : Bool

-- The appended lines, the temp and kind of the value, and the counter afterwards.
pub record Emitted : Type 0 where
  pub code : Code
  pub temp : ℕ
  pub kind : GridKind
  pub serial : ℕ

abbrev pub emitted : Code → ℕ → GridKind → ℕ → Emitted
emitted c t kind k = record { code = c; temp = t; kind = kind; serial = k }

-- `operations.get(type(node.op))`
unfoldable pub operation_of : BinaryOperator → Result GridError Operation
operation_of BinaryOperator.add = ok Operation.add
operation_of BinaryOperator.sub = ok Operation.sub
operation_of mult = ok Operation.mul
operation_of floor_division = ok Operation.floor
operation_of other_operator = err bad_operator

pub data Function2 : Type 0 where
  min_call cdiv_call : Function2

-- The callee of a call, where it is supported and resolves to what it must.
unfoldable pub resolve_callee : Scope → Callee → Result GridError Function2
resolve_callee sc (named f) =
    if str_eq f "min" then (refuse (not sc.min_is_builtin) bad_min >> ok min_call) else err bad_call
resolve_callee sc (attribute value attr) =
    if str_eq attr "cdiv" && str_eq value "triton"
    then (refuse (not sc.cdiv_is_triton) bad_cdiv >> ok cdiv_call)
    else err bad_call
resolve_callee sc (other_callee names) = err bad_call

-- `2 ** 63`, which is only read under a minus.
unfoldable pub is_min_literal : Expr → Bool
is_min_literal (int_constant z) = eqb_ℤ z (pos (2 ^ 63))
is_min_literal (bool_constant b) = false
is_min_literal (load n) = false
is_min_literal (unary o e) = false
is_min_literal (binary o l r) = false
is_min_literal (call f l r) = false
is_min_literal (if_expr t b o) = false
is_min_literal (other names) = false

abbrev pub bool_int : Bool → ℤ
bool_int true = pos 1
bool_int false = pos 0

-- The C lines of one operation on two values.
unfoldable pub call_code : Function2 → ℕ → ℕ → ℕ → Code
call_code min_call l r v = declare v (select_min l r v end)
call_code cdiv_call l r v = declare v (checked Operation.cdiv (variable l) (variable r) v end)

abbrev pub is_bool : GridKind → Bool
is_bool int_kind = false
is_bool bool_kind = true

unfoldable pub emit : Scope → Expr → ℕ → Result GridError Emitted
unfolding operation_of resolve_callee is_min_literal call_code kind_eq
emit sc (int_constant z) k = do
  refuse (not (fits_int64 z)) literal_outside
  ok (emitted (define k z end) k int_kind (k + 1))
emit sc (bool_constant b) k = ok (emitted (define k (bool_int b) end) k bool_kind (k + 1))
emit sc (load n) k = elim (lookup n sc.bound) [
  | none ↦ err (unknown_name n)
  | some (t, kind) ↦ ok (emitted end t kind k)
]
emit sc (unary uadd e) k = do
  operand ← emit sc e k
  ok (emitted operand.code operand.temp int_kind operand.serial)
emit sc (unary usub e) k =
    let operand = emit sc e k in
    if is_min_literal e
    then ok (emitted (define k int64_min end) k int_kind (k + 1))
    else operand >>= λ x. ok (
        emitted
          (x.code
            then declare x.serial
                (checked Operation.sub zero_literal (variable x.temp) x.serial end))
          x.serial int_kind (x.serial + 1))
emit sc (binary o l r) k = do
  operation ← operation_of o
  x ← emit sc l k
  y ← emit sc r x.serial
  ok (
      emitted
        (x.code
          then y.code
          then declare y.serial
              (checked operation (variable x.temp) (variable y.temp) y.serial end))
        y.serial int_kind (y.serial + 1))
emit sc (call f l r) k = do
  function ← resolve_callee sc f
  x ← emit sc l k
  y ← emit sc r x.serial
  refuse (is_bool x.kind || is_bool y.kind) bad_operands
  ok (
      emitted (x.code then y.code then call_code function x.temp y.temp y.serial) y.serial int_kind
        (y.serial + 1))
emit sc (if_expr test body orelse) k = do
  t ← emit sc test k
  then_part ← emit sc body (t.serial + 1)
  else_part ← emit sc orelse then_part.serial
  refuse (not (kind_eq then_part.kind else_part.kind)) branches_differ
  ok (
      emitted
        (t.code
          then declare t.serial (
              branch t.temp (then_part.code then set t.serial then_part.temp end)
                (else_part.code then set t.serial else_part.temp end) end))
        t.serial then_part.kind else_part.serial)
emit sc (other names) k = err unsupported
