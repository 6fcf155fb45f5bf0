-- ===== src/Lowering/Emit.antt =====
-- heuristic.py: `_Emitter`. The appended lines are the result, and the counter of `temp` is passed along.
use intj.Prelude.{
  ℕ, ◌+◌, String, Bool, true, false, not, ◌&&◌, ◌||◌, Option, none, some, [], ◌∷◌, Result, ok, err,
  ◌>>=◌, ◌>>◌, refuse, str_eq, ◌^◌, if◌then◌else◌,
}
use intj.Prelude.Int.{ℤ, pos, negate_ℕ, ltb_ℤ}
use intj.Prelude.Dict.{Dict, lookup}
use intj.Values.{Value}
use intj.Grid.Code.{add, sub, mul, floor, cdiv}
use intj.Grid.Emit.{bool_int}
use intj.Lowering.Code.{
  Arith, grid_operation, modulo, Comparison, eq, not_eq, Operand, literal, variable, dep_value,
  dep_flag, comp_value, comp_flag, NoneTest, argument_is_none, constant_test, Block, end, define,
  set, checked, next_pow2, argument, Test, holds, fails, less, logical_not, compare, test_none,
  tensor, dtype, branch, ◌andthen◌,
}

-- `node.op` of the three kinds of operators.
pub data BinaryNode : Type 0 where
  add_node sub_node mult_node floor_div_node mod_node other_node : BinaryNode

pub data UnaryNode : Type 0 where
  not_node usub_node uadd_node invert_node : UnaryNode

pub data CompareNode : Type 0 where
  is_node is_not_node : CompareNode
  order : Comparison → CompareNode
  other_compare : CompareNode

-- An expression of a heuristic, in the shapes that `emit` tells apart. `input` is the function's argument
-- under a string literal, `shape_at` a subscript of an attribute `shape`, `attribute` any attribute, and
-- `named_call`, `triton_call` and `method_call` calls without keywords.
mutual
  pub data Term : Type 0 where
    input : (key : String) → Term
    int_constant : ℤ → Term
    bool_constant : Bool → Term
    none_constant : Term
    binary : BinaryNode → Term → Term → Term
    unary : UnaryNode → Term → Term
    comparison : CompareNode → Term → Term → Term
    chained : Term
    bool_op : (is_and : Bool) → Term → Terms → Term
    if_term : (test body orelse : Term) → Term
    shape_at : (target index : Term) → Term
    attribute : (target : Term) → (attr : String) → Term
    named_call : String → Terms → Term
    triton_call : String → Terms → Term
    method_call : (target : Term) → (method : String) → Terms → Term
    other_term : Term

  pub data Terms : Type 0 where
    nil : Terms
    cons : Term → Terms → Terms

-- The messages of `HeuristicError`.
pub data LowerError : Type 0 where
  tensor_needed fixed_kind literal_outside bad_operator chained_comparison bad_is bad_comparison
        bad_dtype bad_builtin bad_triton bad_arity literal_index unsupported :
      LowerError
  no_source : (key : String) → LowerError

-- `Source`
pub data Source : Type 0 where
  arg : (index : ℕ) → Source
  fixed : Value → Source
  dep comp : (slot : ℕ) → Source

-- What an emitter reads: where the inputs come from, and what `min`, `max` and `triton` resolve to.
pub record Emitter : Type 0 where
  pub sources : Dict Source
  pub min_ok : Bool
  pub max_ok : Bool
  pub triton_ok : Bool

-- The lines, the (value, is_bool) expressions, and the counter afterwards.
pub record LoweredTerm : Type 0 where
  pub code : Block
  pub value : Operand
  pub flag : Operand
  pub serial : ℕ

abbrev pub lowered : Block → Operand → Operand → ℕ → LoweredTerm
lowered c v b k = record { code = c; value = v; flag = b; serial = k }

-- `pair`, at the counter `k`, in front of a block.
abbrev pub with_pair : ℕ → Block → Block
with_pair k c = define k (pos 0) (define (k + 1) (pos 0) c)

abbrev pub set_pair : ℕ → Operand → Operand → Block → Block
set_pair k v b c = set k v (set (k + 1) b c)

abbrev pub flag_of : Bool → Operand
flag_of b = literal (bool_int b)

unfoldable pub source_of : Emitter → String → Result LowerError Source
source_of em key = elim (lookup key em.sources) [ none ↦ err (no_source key) | some s ↦ ok s ]

-- `emit` of an input.
unfoldable pub emit_input : String → Source → ℕ → Result LowerError LoweredTerm
emit_input key (arg i) k =
    ok
      (lowered (with_pair k (argument i key k (k + 1) end)) (variable k) (variable (k + 1)) (k + 2))
emit_input key (fixed (Value.int z)) k = ok (lowered end (literal z) (flag_of false) k)
emit_input key (fixed (Value.bool b)) k = ok (lowered end (literal (bool_int b)) (flag_of true) k)
emit_input key (fixed v) k = err fixed_kind
emit_input key (dep i) k = ok (lowered end (dep_value i) (dep_flag i) k)
emit_input key (comp i) k = ok (lowered end (comp_value i) (comp_flag i) k)

-- `_ARITH.get(type(node.op))`
unfoldable pub arith_of : BinaryNode → Result LowerError Arith
arith_of add_node = ok (grid_operation add)
arith_of sub_node = ok (grid_operation sub)
arith_of mult_node = ok (grid_operation mul)
arith_of floor_div_node = ok (grid_operation floor)
arith_of mod_node = ok modulo
arith_of other_node = err bad_operator

-- `tensor_arg`
unfoldable pub tensor_arg : Emitter → Term → Result LowerError (String × ℕ)
unfolding source_of
tensor_arg em (input key) = source_of em key >>= λ s. elim s [
  | arg i ↦ ok (key, i)
  | fixed v ↦ err tensor_needed
  | dep i ↦ err tensor_needed
  | comp i ↦ err tensor_needed
]
tensor_arg em _ = err tensor_needed

-- `_TENSOR_METHODS`
abbrev pub tensor_methods : Dict Bool
tensor_methods =
    ("numel", false)
    ∷ ("size", true)
    ∷ ("stride", true)
    ∷ ("dim", false)
    ∷ ("element_size", false)
    ∷ ("is_contiguous", false)
    ∷ ("data_ptr", false)
    ∷ []

unfoldable pub method_of : String → Result LowerError Bool
method_of method = elim (lookup method tensor_methods) [ none ↦ err unsupported | some b ↦ ok b ]

-- The literal index of a tensor's method that takes one.
unfoldable pub method_index : (takes_index : Bool) → Terms → Result LowerError (Option ℤ)
method_index false nil = ok none
method_index false (cons t ts) = err bad_arity
method_index true (cons (int_constant z) nil) = ok (some z)
method_index true (cons t nil) = err literal_index
method_index true nil = err bad_arity
method_index true (cons t (cons u ts)) = err bad_arity

-- `tensor_call`
unfoldable pub tensor_call :
    Emitter → Term → String → Bool → Terms → ℕ → Result LowerError LoweredTerm
unfolding tensor_arg method_index
tensor_call em target method takes_index args k = do
  found ← tensor_arg em target
  index ← method_index takes_index args
  ok (
      lowered (define k (pos 0) (tensor found.1 found.0 method index k end)) (variable k)
        (flag_of (str_eq method "is_contiguous")) (k + 1))

abbrev pub is_dtype : Term → Bool
is_dtype (attribute target attr) = str_eq attr "dtype"
is_dtype _ = false

-- `dtype`. Its variable has no value in C until `intj_heur_dtype` sets it; here it starts as 0.
unfoldable pub emit_dtype : Emitter → Term → ℕ → Result LowerError LoweredTerm
unfolding tensor_arg
emit_dtype em (attribute target attr) k = do
  found ← tensor_arg em target
  ok (lowered (define k (pos 0) (dtype found.1 found.0 k end)) (variable k) (flag_of false) (k + 1))
emit_dtype em _ k = err tensor_needed

-- The test of an input for None.
abbrev pub none_test : Source → NoneTest
none_test (arg i) = argument_is_none i
none_test (fixed Value.null) = constant_test true
none_test (fixed v) = constant_test false
none_test (dep i) = constant_test false
none_test (comp i) = constant_test false

unfoldable pub emit_none : Emitter → Bool → Term → Term → ℕ → Result LowerError LoweredTerm
unfolding source_of
emit_none em negate (input key) none_constant k = do
  source ← source_of em key
  ok (
      lowered (define k (pos 0) (test_none negate (none_test source) k end)) (variable k)
        (flag_of true) (k + 1))
emit_none em negate _ _ k = err bad_is

abbrev pub is_equality : Comparison → Bool
is_equality eq = true
is_equality not_eq = true
is_equality _ = false

-- The block that runs if the value of a `bool_op` so far does not decide it.
abbrev pub go_on : (is_and : Bool) → ℕ → Block → Block
go_on true k c = branch (holds (variable k)) c end end
go_on false k c = branch (fails (variable k)) c end end

-- `_BUILTIN`, where the name resolves to the builtin.
unfoldable pub extreme_of : Emitter → String → Result LowerError Bool
extreme_of em name =
    if str_eq name "min"
    then (refuse (not em.min_ok) bad_builtin >> ok true)
    else if str_eq name "max"
    then (refuse (not em.max_ok) bad_builtin >> ok false)
    else err unsupported

-- The second argument is the result if it beats the first.
abbrev pub beats : (is_min : Bool) → (second first : Operand) → Test
beats true c a = less c a
beats false c a = less a c

-- A supported function of triton; `true` is `cdiv`. Any other name is that of a method of `triton`.
unfoldable pub triton_function : Emitter → String → Result LowerError Bool
unfolding method_of
triton_function em name =
    if str_eq name "cdiv"
    then (refuse (not em.triton_ok) bad_triton >> ok true)
    else if str_eq name "next_power_of_2"
    then (refuse (not em.triton_ok) bad_triton >> ok false)
    else method_of name >>= λ b. err tensor_needed

-- The statements of a unary operator.
unfoldable pub unary_code : UnaryNode → Operand → ℕ → Result LowerError Block
unary_code not_node x k = ok (define k (pos 0) (logical_not x k end))
unary_code usub_node x k =
    ok (define k (pos 0) (checked (grid_operation sub) (literal (pos 0)) x k end))
unary_code uadd_node x k = ok (define k (pos 0) (set k x end))
unary_code invert_node x k = err bad_operator

abbrev pub is_not : UnaryNode → Bool
is_not not_node = true
is_not _ = false

-- The variable `k` is declared before the operands are computed.
abbrev pub compared : Comparison → ℕ → LoweredTerm → LoweredTerm → LoweredTerm
compared c k x y =
    lowered (define k (pos 0) (x.code andthen y.code andthen compare c x.value y.value k end))
      (variable k) (flag_of true) y.serial

abbrev pub within_literal : ℤ → Bool
within_literal z = ltb_ℤ (negate_ℕ (2 ^ 63)) z && ltb_ℤ z (pos (2 ^ 63))

unfoldable mutual
  unfolding source_of emit_input arith_of tensor_call emit_dtype emit_none extreme_of
      triton_function method_of unary_code

  pub emit : Emitter → Term → ℕ → Result LowerError LoweredTerm
  emit em (input key) k = source_of em key >>= λ source. emit_input key source k
  emit em (int_constant z) k = do
    refuse (not (within_literal z)) literal_outside
    ok (lowered end (literal z) (flag_of false) k)
  emit em (bool_constant b) k = ok (lowered end (literal (bool_int b)) (flag_of true) k)
  emit em none_constant k = err unsupported
  emit em (binary o l r) k = do
    op ← arith_of o
    x ← emit em l k
    y ← emit em r x.serial
    ok (
        lowered
          (x.code
            andthen y.code
            andthen define y.serial (pos 0) (checked op x.value y.value y.serial end))
          (variable y.serial) (flag_of false) (y.serial + 1))
  emit em (unary o e) k = do
    x ← emit em e k
    c ← unary_code o x.value x.serial
    ok (lowered (x.code andthen c) (variable x.serial) (flag_of (is_not o)) (x.serial + 1))
  emit em (comparison is_node l r) k = emit_none em false l r k
  emit em (comparison is_not_node l r) k = emit_none em true l r k
  emit em (comparison other_compare l r) k = err bad_comparison
  emit em (comparison (order c) l r) k =
      let plain = emit em l (k + 1) >>= λ x. emit em r x.serial >>= λ y. ok (compared c k x y) in
      let dtypes =
        emit_dtype em l (k + 1) >>= λ x. emit_dtype em r x.serial >>= λ y. ok (compared c k x y) in
      if is_dtype l || is_dtype r
      then (refuse (not (is_equality c && is_dtype l && is_dtype r)) bad_dtype >> dtypes)
      else plain
  emit em chained k = err chained_comparison
  emit em (bool_op is_and first rest) k = do
    x ← emit em first (k + 2)
    others ← emit_rest em is_and k rest x.serial
    ok (
        lowered (with_pair k (x.code andthen set_pair k x.value x.flag others.0)) (variable k)
          (variable (k + 1)) others.1)
  emit em (if_term test body orelse) k = do
    t ← emit em test (k + 2)
    x ← emit em body t.serial
    y ← emit em orelse x.serial
    ok (
        lowered
          (with_pair k (
            t.code
            andthen branch (holds t.value) (x.code andthen set_pair k x.value x.flag end)
                (y.code andthen set_pair k y.value y.flag end) end))
          (variable k) (variable (k + 1)) y.serial)
  emit em (shape_at target index) k = tensor_call em target "size" true (cons index nil) k
  emit em (attribute target attr) k = err unsupported
  emit em (named_call f (cons a (cons c nil))) k = do
    is_min ← extreme_of em f
    x ← emit em a k
    y ← emit em c x.serial
    let n = y.serial
    ok (
        lowered
          (x.code
            andthen y.code
            andthen with_pair n (
                branch (beats is_min y.value x.value) (set_pair n y.value y.flag end)
                  (set_pair n x.value x.flag end) end))
          (variable n) (variable (n + 1)) (n + 2))
  emit em (named_call f nil) k = err unsupported
  emit em (named_call f (cons a nil)) k = err unsupported
  emit em (named_call f (cons a (cons c (cons d more)))) k = err unsupported
  emit em (triton_call f (cons a nil)) k = do
    is_cdiv ← triton_function em f
    refuse is_cdiv bad_arity
    x ← emit em a k
    ok (
        lowered (x.code andthen define x.serial (pos 0) (next_pow2 x.value x.serial end))
          (variable x.serial) (flag_of false) (x.serial + 1))
  emit em (triton_call f (cons a (cons c nil))) k = do
    is_cdiv ← triton_function em f
    refuse (not is_cdiv) bad_arity
    x ← emit em a k
    y ← emit em c x.serial
    ok (
        lowered
          (x.code
            andthen y.code
            andthen define y.serial (pos 0)
                (checked (grid_operation cdiv) x.value y.value y.serial end))
          (variable y.serial) (flag_of false) (y.serial + 1))
  emit em (triton_call f nil) k = triton_function em f >>= λ b. err bad_arity
  emit em (triton_call f (cons a (cons c (cons d more)))) k =
      triton_function em f >>= λ b. err bad_arity
  emit em (method_call target method args) k =
      method_of method >>= λ takes_index. tensor_call em target method takes_index args k
  emit em other_term k = err unsupported

  -- The loop over `node.values[1:]`, whose closing braces come at the end.
  pub emit_rest : Emitter → (is_and : Bool) → ℕ → Terms → ℕ → Result LowerError (Block × ℕ)
  emit_rest em is_and k nil n = ok (end, n)
  emit_rest em is_and k (cons t ts) n = do
    x ← emit em t n
    others ← emit_rest em is_and k ts x.serial
    ok (go_on is_and k (x.code andthen set_pair k x.value x.flag others.0), others.1)
