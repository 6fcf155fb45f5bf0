-- ===== src/Lowering/Examples.antt =====
-- A heuristic of an argument `n`, a baked `block` and a tensor `x`:
-- `lambda args: args["n"] % args["block"] == 0 and args["x"].is_contiguous()`
use intj.Prelude.{
  ℕ, ◌≡◌, refl, subst, String, Bool, true, false, Option, none, [], ◌∷◌, Result, ok, ◌>>=◌, ok-inj,
  str_eq, if◌then◌else◌,
}
use intj.Prelude.Int.{ℤ, pos, fits_int64, ◌+ℤ◌, ◌-ℤ◌, ◌*ℤ◌}
use intj.Prelude.Dict.{Dict, lookup}
use intj.Values.{Value}
use intj.Grid.Code.{
  RunError, operate, in_int64, quotient, remainder, grid_floor128, read, write, enter, leave,
}
use intj.Lowering.Code.{
  Call, Comparison, Arith, Operand, Test, Block, operand_of, perform, arith_value, grid_mod,
  grid_next_pow2, heur_arg, long_of, heur_tensor, heur_dtype, method_result, none_value, test_value,
  compare_value, ◌andthen◌,
}
use intj.Lowering.Emit.{
  BinaryNode, CompareNode, Term, Terms, Source, emit, source_of, emit_input, arith_of, tensor_arg,
  tensor_call, method_index, method_of, emit_dtype, emit_none, extreme_of, triton_function,
  unary_code,
}
use intj.Lowering.Meaning.{
  evaluate, read_scalar, method_value, binary_value, unary_value, tensor_at, dtype_value,
  none_value_of, extreme,
}
use intj.Lowering.Supplies.{Supplies}
use intj.Lowering.Attributes.{HasKind, HasKinds}
use intj.Lowering.Longs.{HasLongs}
use intj.Lowering.Whole.{
  Lowerable, LoweredHeuristic, lower, lower_from, lower_level, lower_heuristic, run_heuristic,
  put_pair, lower_heuristic-refines,
}

-- Every declaration that unfolds it computes with the definitions named here.
program : Unit {0}
unfolding HasLongs fits_int64 ◌+ℤ◌ ◌-ℤ◌ ◌*ℤ◌ lookup operate in_int64 quotient remainder
    grid_floor128 read write enter leave operand_of perform arith_value grid_mod grid_next_pow2
    heur_arg long_of heur_tensor heur_dtype method_result none_value test_value compare_value
    ◌andthen◌ emit source_of emit_input arith_of tensor_arg tensor_call method_index method_of
    emit_dtype emit_none extreme_of triton_function unary_code evaluate read_scalar method_value
    binary_value unary_value tensor_at dtype_value none_value_of extreme lower_from lower_level
    lower_heuristic run_heuristic put_pair
program = tt

abbrev dense_or_four : Bool → Result RunError Value
dense_or_four b = if b then ok (Value.bool true) else ok (Value.int (pos 4))

-- What torch says of a tensor.
abbrev torch_method : Value → String → Option ℤ → Result RunError Value
torch_method v method index = dense_or_four (str_eq method "is_contiguous")

torch_method-HasKind : (b : Bool) (r : Value) → dense_or_four b ≡ ok r → HasKind b r
torch_method-HasKind true r h = subst (HasKind true) (ok-inj h) refl
torch_method-HasKind false r h = subst (HasKind false) (ok-inj h) refl

abbrev is_object : Value → Bool
is_object (Value.object n) = true
is_object _ = false

-- A call with `n = 256`.
abbrev tensor_call_of : Call
tensor_call_of = record {
  args = Value.int (pos 256) ∷ Value.object 7 ∷ [];
  dep = [];
  comp = (pos 0, pos 0) ∷ [];
  is_tensor = is_object;
  call_method = torch_method;
  dtype_of = λ v. ok (pos 4096);
}

tensor_call_of-HasKinds : HasKinds tensor_call_of
tensor_call_of-HasKinds v method index r h =
    torch_method-HasKind (str_eq method "is_contiguous") r h

abbrev given : Dict Value
given = ("n", Value.int (pos 256)) ∷ ("block", Value.int (pos 128)) ∷ ("x", Value.object 7) ∷ []

abbrev places : Dict Source
places =
    ("n", Source.arg 0) ∷ ("block", Source.fixed (Value.int (pos 128))) ∷ ("x", Source.arg 1) ∷ []

places-Supplies : Supplies tensor_call_of given places
unfolding program
places-Supplies = (
  (Value.int (pos 256), refl, refl),
  ((Value.int (pos 128), refl, (refl, refl)), ((Value.object 7, refl, refl), tt)),
)

abbrev even_and_dense : Lowerable
even_and_dense = record {
  expr =
      Term.bool_op true
        (Term.comparison (CompareNode.order Comparison.eq)
          (Term.binary BinaryNode.mod_node (Term.input "n") (Term.input "block"))
          (Term.int_constant (pos 0)))
        (Terms.cons (Term.method_call (Term.input "x") "is_contiguous" Terms.nil) Terms.nil);
  min_ok = true;
  max_ok = true;
  triton_ok = true;
}

abbrev v1 : Operand
v1 = Operand.variable 1

abbrev one : Operand
one = Operand.literal (pos 1)

abbrev zero_of : ℕ → Block → Block
zero_of v k = Block.define v (pos 0) k

abbrev even_and_dense_code : Block
even_and_dense_code = zero_of 1 (
    zero_of 2 (
      zero_of 3 (
        zero_of 4 (
          zero_of 5 (
            Block.argument 0 "n" 4 5 (
              zero_of 6 (
                Block.checked Arith.modulo (Operand.variable 4) (Operand.literal (pos 128)) 6 (
                  Block.compare Comparison.eq (Operand.variable 6) (Operand.literal (pos 0)) 3 (
                    Block.set 1 (Operand.variable 3) (
                      Block.set 2 one (
                        Block.branch (Test.holds v1)
                          (zero_of 7 (
                            Block.tensor 1 "x" "is_contiguous" none 7
                              (Block.set 1 (Operand.variable 7) (Block.set 2 one Block.end))))
                          Block.end Block.end)))))))))))

abbrev even_and_dense_lowered : LoweredHeuristic
even_and_dense_lowered = record {
  slot = 0;
  result = record { code = even_and_dense_code; value = v1; flag = Operand.variable 2; serial = 8 };
}

lower-even_and_dense :
    lower ((even_and_dense, 1) ∷ []) places 2 ≡ ok ([] ∷ (even_and_dense_lowered ∷ []) ∷ [])
unfolding program
lower-even_and_dense = refl

lower_heuristic-refines_example :
    (run_heuristic tensor_call_of even_and_dense_lowered [] >>= λ p. ok p.0)
    ≡ ok ((pos 1, pos 1) ∷ [])
unfolding program
lower_heuristic-refines_example =
    lower_heuristic-refines tensor_call_of given places even_and_dense 0 1 [] even_and_dense_lowered
      tensor_call_of-HasKinds (((tt, tt), tt), (tt, tt)) places-Supplies tt refl
