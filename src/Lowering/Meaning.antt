-- ===== src/Lowering/Meaning.antt =====
-- heuristic.py: what Python gives for the expressions of a heuristic, for any arithmetic on the integers.
-- `range` is what becomes of an integer that is read: Python has no bound, the emitted code that of int64.
-- A value that is neither an int nor a bool, and a tensor's attribute of anything else, end it.
use intj.Prelude.{
  String, Bool, true, false, not, Option, none, some, Result, ok, err, ◌>>=◌, ◌>>◌, refuse, str_eq,
  if◌then◌else◌,
}
use intj.Prelude.Int.{ℤ, pos, ltb_ℤ, eqb_ℤ}
use intj.Prelude.Dict.{Dict, lookup}
use intj.Values.{Value}
use intj.Grid.Code.{
  RunError, overflow, undefined, not_an_int, not_a_tensor, add, sub, mul, floor, cdiv,
}
use intj.Grid.Meaning.{Scalar, int_value, bool_value, as_int}
use intj.Lowering.Code.{
  Arith, grid_operation, modulo, Comparison, compare_value, is_null_object, negated, Call,
}
use intj.Lowering.Emit.{
  BinaryNode, add_node, sub_node, mult_node, floor_div_node, mod_node, other_node, UnaryNode,
  not_node, usub_node, uadd_node, invert_node, is_node, is_not_node, order, other_compare, Term,
  input, int_constant, bool_constant, none_constant, binary, unary, comparison, chained, bool_op,
  if_term, shape_at, attribute, named_call, triton_call, method_call, other_term, Terms, nil, cons,
  is_dtype,
}

-- `bool(v)`
abbrev pub truth : Scalar → Bool
truth v = not (eqb_ℤ (as_int v) (pos 0))

-- Whether a value of `and`, or of `or`, leaves the next one to decide.
abbrev pub goes_on : (is_and : Bool) → Scalar → Bool
goes_on true v = truth v
goes_on false v = not (truth v)

abbrev pub is_boolean : Scalar → Bool
is_boolean (int_value z) = false
is_boolean (bool_value b) = true

abbrev pub meaning_of : BinaryNode → Option Arith
meaning_of add_node = some (grid_operation add)
meaning_of sub_node = some (grid_operation sub)
meaning_of mult_node = some (grid_operation mul)
meaning_of floor_div_node = some (grid_operation floor)
meaning_of mod_node = some modulo
meaning_of other_node = none

abbrev pub given_value : Dict Value → String → Result RunError Value
given_value env key = elim (lookup key env) [ none ↦ err undefined | some v ↦ ok v ]

-- The object that an attribute is read of.
unfoldable pub tensor_at : Call → Dict Value → Term → Result RunError Value
tensor_at call env (input key) = do
  held ← given_value env key
  refuse (not (call.is_tensor held)) (not_a_tensor key)
  ok held
tensor_at call env _ = err undefined

unfoldable pub dtype_value : Call → Dict Value → Term → Result RunError Scalar
unfolding tensor_at
dtype_value call env (attribute target attr) = do
  held ← tensor_at call env target
  z ← call.dtype_of held
  ok (int_value z)
dtype_value call env _ = err undefined

-- The arguments of a method: nothing, or one literal.
abbrev pub literal_index : Terms → Option ℤ
literal_index (cons (int_constant z) nil) = some z
literal_index _ = none

-- `x is None`
unfoldable pub none_value_of : Dict Value → Term → Term → Result RunError Bool
none_value_of env (input key) none_constant = given_value env key >>= λ v. ok (is_null_object v)
none_value_of env _ _ = err undefined

-- `min` and `max` give their second argument only if it beats the first.
unfoldable pub extreme : String → Scalar → Scalar → Result RunError Scalar
extreme f x y =
    if str_eq f "min"
    then ok (if ltb_ℤ (as_int y) (as_int x) then y else x)
    else ok (if ltb_ℤ (as_int x) (as_int y) then y else x)

abbrev pub compared_values : Comparison → Scalar → Scalar → Scalar
compared_values c x y = bool_value (compare_value c (as_int x) (as_int y))

abbrev pub result_value : Result RunError ℤ → Result RunError Scalar
result_value m = m >>= λ z. ok (int_value z)

-- A value that is read, where `e` is the error that it is of another kind.
unfoldable pub read_scalar : (ℤ → Result RunError ℤ) → RunError → Value → Result RunError Scalar
read_scalar range e (Value.bool b) = ok (bool_value b)
read_scalar range e (Value.int z) = result_value (range z)
read_scalar range e _ = err e

unfoldable pub method_value :
    Call → (ℤ → Result RunError ℤ) → Dict Value → Term → String → Option ℤ → Result RunError Scalar
unfolding tensor_at read_scalar
method_value call range env target method index = do
  held ← tensor_at call env target
  v ← call.call_method held method index
  read_scalar range overflow v

abbrev pub Arithmetic : Type 0
Arithmetic = Arith → ℤ → ℤ → Result RunError ℤ

unfoldable pub binary_value : Arithmetic → Option Arith → Scalar → Scalar → Result RunError Scalar
binary_value ar none x y = err undefined
binary_value ar (some o) x y = result_value (ar o (as_int x) (as_int y))

unfoldable pub unary_value : Arithmetic → UnaryNode → Scalar → Result RunError Scalar
unary_value ar not_node x = ok (bool_value (not (truth x)))
unary_value ar usub_node x = result_value (ar (grid_operation sub) (pos 0) (as_int x))
unary_value ar uadd_node x = ok (int_value (as_int x))
unary_value ar invert_node x = err undefined

module _ (call : Call) (range : ℤ → Result RunError ℤ) (ar : Arithmetic)
    (round_up : ℤ → Result RunError ℤ) where
  unfoldable mutual
    unfolding read_scalar binary_value unary_value method_value dtype_value none_value_of extreme

    pub evaluate : Dict Value → Term → Result RunError Scalar
    evaluate env (input key) = given_value env key >>= read_scalar range (not_an_int key)
    evaluate env (int_constant z) = ok (int_value z)
    evaluate env (bool_constant b) = ok (bool_value b)
    evaluate env none_constant = err undefined
    evaluate env (binary o l r) = do
      x ← evaluate env l
      y ← evaluate env r
      binary_value ar (meaning_of o) x y
    evaluate env (unary o e) = evaluate env e >>= unary_value ar o
    evaluate env (comparison is_node l r) =
        none_value_of env l r >>= λ b. ok (bool_value (negated false b))
    evaluate env (comparison is_not_node l r) =
        none_value_of env l r >>= λ b. ok (bool_value (negated true b))
    evaluate env (comparison other_compare l r) = err undefined
    evaluate env (comparison (order c) l r) =
        let plain = evaluate env l >>= λ x. evaluate env r >>= λ y. ok (compared_values c x y) in
        let dtypes = dtype_value call env l >>= λ x.
        dtype_value call env r >>= λ y. ok (compared_values c x y) in
        if is_dtype l then dtypes else plain
    evaluate env chained = err undefined
    evaluate env (bool_op is_and first rest) =
        evaluate env first >>= λ v. evaluate_rest env is_and rest v
    evaluate env (if_term test body orelse) =
        let taken = evaluate env body in
        let otherwise = evaluate env orelse in
        evaluate env test >>= λ t. if truth t then taken else otherwise
    evaluate env (shape_at target index) =
        method_value call range env target "size" (literal_index (cons index nil))
    evaluate env (attribute target attr) = err undefined
    evaluate env (named_call f (cons a (cons c nil))) = do
      x ← evaluate env a
      y ← evaluate env c
      extreme f x y
    evaluate env (named_call f nil) = err undefined
    evaluate env (named_call f (cons a nil)) = err undefined
    evaluate env (named_call f (cons a (cons c (cons d more)))) = err undefined
    evaluate env (triton_call f (cons a nil)) =
        evaluate env a >>= λ x. result_value (round_up (as_int x))
    evaluate env (triton_call f (cons a (cons c nil))) = do
      x ← evaluate env a
      y ← evaluate env c
      result_value (ar (grid_operation cdiv) (as_int x) (as_int y))
    evaluate env (triton_call f nil) = err undefined
    evaluate env (triton_call f (cons a (cons c (cons d more)))) = err undefined
    evaluate env (method_call target method args) =
        method_value call range env target method (literal_index args)
    evaluate env other_term = err undefined

    -- `and` goes on while the value so far is true, `or` while it is false.
    pub evaluate_rest : Dict Value → (is_and : Bool) → Terms → Scalar → Result RunError Scalar
    evaluate_rest env is_and nil v = ok v
    evaluate_rest env is_and (cons t ts) v =
        let others = evaluate env t >>= evaluate_rest env is_and ts in
        if goes_on is_and v then others else ok v
