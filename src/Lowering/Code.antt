-- ===== src/Lowering/Code.antt =====
-- heuristic.py and runtime/intj_runtime.h: the C statements that a lowered heuristic consists of, and what
-- they do. torch is a parameter: `call_method` is the outcome of a method, given the index of those that
-- take one, and `dtype_of` the address of a dtype.
use Prim.Native.Nat.{bit_and, bit_or}
use intj.Prelude.{
  ℕ, ◌/◌, ◌^◌, String, Bool, true, false, not, Option, none, some, List, Result, ok, err, ◌>>=◌,
  ◌>>◌, refuse, if◌then◌else◌,
}
use intj.Prelude.Int.{ℤ, pos, negsuc, ◌+ℤ◌, ◌-ℤ◌, ◌*ℤ◌, fits_int64, int64_min, ltb_ℤ, leb_ℤ, eqb_ℤ}
use intj.Values.{Value}
use intj.Grid.Code.{
  RunError, overflow, undefined, not_an_int, not_a_tensor, Operation, floor, in_int64, operate,
  Store, read, write, enter, leave,
}
use intj.Grid.Emit.{bool_int}
use intj.Grid.Run.{get_elem?}

pub data Arith : Type 0 where
  grid_operation : Operation → Arith
  modulo : Arith

pub data Comparison : Type 0 where
  eq not_eq lt lt_e gt gt_e : Comparison

-- A C expression without an effect: a literal, a variable `hv_n`, or an element of `dep` or `comp`, of
-- which `value` is the even one of a slot and `flag` the odd one.
pub data Operand : Type 0 where
  literal : ℤ → Operand
  variable : ℕ → Operand
  dep_value dep_flag comp_value comp_flag : (slot : ℕ) → Operand

-- A test of an object for None.
pub data NoneTest : Type 0 where
  argument_is_none : ℕ → NoneTest
  constant_test : Bool → NoneTest

-- The condition of an `if`.
pub data Test : Type 0 where
  holds fails : Operand → Test
  less : (left right : Operand) → Test

pub data Block : Type 0 where
  end : Block
  define : ℕ → ℤ → Block → Block
  set : ℕ → Operand → Block → Block
  checked : Arith → (left right : Operand) → (out : ℕ) → Block → Block
  next_pow2 : Operand → (out : ℕ) → Block → Block
  argument : (index : ℕ) → (name : String) → (value flag : ℕ) → Block → Block
  logical_not : Operand → (out : ℕ) → Block → Block
  compare : Comparison → (left right : Operand) → (out : ℕ) → Block → Block
  test_none : (negate : Bool) → NoneTest → (out : ℕ) → Block → Block
  tensor : (index : ℕ) → (name method : String) → (literal : Option ℤ) → (out : ℕ) → Block → Block
  dtype : (index : ℕ) → (name : String) → (out : ℕ) → Block → Block
  branch : Test → (body orelse : Block) → Block → Block

infixr 66 ◌andthen◌
unfoldable pub ◌andthen◌ : Block → Block → Block
end andthen k = k
define v z c andthen k = define v z (c andthen k)
set v o c andthen k = set v o (c andthen k)
checked a l r v c andthen k = checked a l r v (c andthen k)
next_pow2 o v c andthen k = next_pow2 o v (c andthen k)
argument i n v b c andthen k = argument i n v b (c andthen k)
logical_not o v c andthen k = logical_not o v (c andthen k)
compare s l r v c andthen k = compare s l r v (c andthen k)
test_none n t v c andthen k = test_none n t v (c andthen k)
tensor i n m z v c andthen k = tensor i n m z v (c andthen k)
dtype i n v c andthen k = dtype i n v (c andthen k)
branch t y n c andthen k = branch t y n (c andthen k)

-- `intj_grid_mod`
unfoldable pub grid_mod : ℤ → ℤ → Result RunError ℤ
unfolding operate ◌-ℤ◌ ◌*ℤ◌
grid_mod a b = operate floor a b >>= λ q. ok (a -ℤ q *ℤ b)

unfoldable pub arith_value : Arith → ℤ → ℤ → Result RunError ℤ
unfolding operate grid_mod
arith_value (grid_operation o) a b = operate o a b
arith_value modulo a b = grid_mod a b

-- `x |= x >> k`, where a negative number is its complement's complement.
abbrev pub smear : ℕ → ℤ → ℤ
smear k (pos n) = pos (bit_or n (n / 2 ^ k))
smear k (negsuc n) = negsuc (bit_and n (n / 2 ^ k))

-- `intj_grid_next_pow2`
unfoldable pub grid_next_pow2 : ℤ → Result RunError ℤ
unfolding in_int64 ◌+ℤ◌ ◌-ℤ◌
grid_next_pow2 n =
    if eqb_ℤ n int64_min
    then err overflow
    else in_int64
        (smear 32 (smear 16 (smear 8 (smear 4 (smear 2 (smear 1 (n -ℤ pos 1)))))) +ℤ pos 1)

-- `intj_heur_arg`: the value, and 1 if it was a bool.
unfoldable pub heur_arg : String → Value → Result RunError (ℤ × ℤ)
unfolding in_int64
heur_arg name (Value.bool b) = ok (bool_int b, pos 1)
heur_arg name (Value.int z) = in_int64 z >>= λ n. ok (n, pos 0)
heur_arg name _ = err (not_an_int name)

unfoldable pub compare_value : Comparison → ℤ → ℤ → Bool
compare_value eq a b = eqb_ℤ a b
compare_value not_eq a b = not (eqb_ℤ a b)
compare_value lt a b = ltb_ℤ a b
compare_value lt_e a b = leb_ℤ a b
compare_value gt a b = ltb_ℤ b a
compare_value gt_e a b = leb_ℤ b a

abbrev pub is_null_object : Value → Bool
is_null_object Value.null = true
is_null_object _ = false

abbrev pub negated : Bool → Bool → Bool
negated true b = not b
negated false b = b

-- What a level's function is called with: the call's objects, and the pairs (value, 1 if it was a bool) of
-- the record's dependent values and of the computed keys that are written already.
pub record Call : Type 0 where
  pub args : List Value
  pub dep : List (ℤ × ℤ)
  pub comp : List (ℤ × ℤ)
  pub is_tensor : Value → Bool
  pub call_method : Value → String → Option ℤ → Result RunError Value
  pub dtype_of : Value → Result RunError ℤ

abbrev pub or_undefined {ℓ} : {A : Type ℓ} → Option A → Result RunError A
or_undefined none = err undefined
or_undefined (some a) = ok a

unfoldable pub method_result : Value → Result RunError ℤ
unfolding in_int64
method_result (Value.bool b) = ok (bool_int b)
method_result (Value.int z) = in_int64 z
method_result _ = err overflow

-- The literal index, printed as a C `long`: outside of its range it means what C makes of it.
unfoldable pub long_of : Option ℤ → Result RunError (Option ℤ)
long_of none = ok none
long_of (some z) = if fits_int64 z then ok (some z) else err undefined

-- `intj_heur_tensor`
unfoldable pub heur_tensor : Call → Value → String → String → Option ℤ → Result RunError ℤ
unfolding method_result
heur_tensor call held name method index = do
  refuse (not (call.is_tensor held)) (not_a_tensor name)
  result ← call.call_method held method index
  method_result result

-- `intj_heur_dtype`
unfoldable pub heur_dtype : Call → Value → String → Result RunError ℤ
heur_dtype call held name = do
  refuse (not (call.is_tensor held)) (not_a_tensor name)
  call.dtype_of held

-- A literal outside int64 means in C what its context makes of it.
unfoldable pub operand_of : Call → Operand → Store → Result RunError ℤ
unfolding read
operand_of call (literal z) s = if fits_int64 z then ok z else err undefined
operand_of call (variable v) s = read v s
operand_of call (dep_value i) s = or_undefined (get_elem? call.dep i) >>= λ p. ok p.0
operand_of call (dep_flag i) s = or_undefined (get_elem? call.dep i) >>= λ p. ok p.1
operand_of call (comp_value i) s = or_undefined (get_elem? call.comp i) >>= λ p. ok p.0
operand_of call (comp_flag i) s = or_undefined (get_elem? call.comp i) >>= λ p. ok p.1

unfoldable pub none_value : Call → NoneTest → Result RunError Bool
none_value call (argument_is_none i) =
    or_undefined (get_elem? call.args i) >>= λ v. ok (is_null_object v)
none_value call (constant_test b) = ok b

unfoldable pub test_value : Call → Test → Store → Result RunError Bool
unfolding operand_of
test_value call (holds o) s = operand_of call o s >>= λ x. ok (not (eqb_ℤ x (pos 0)))
test_value call (fails o) s = operand_of call o s >>= λ x. ok (eqb_ℤ x (pos 0))
test_value call (less l r) s =
    operand_of call l s >>= λ x. operand_of call r s >>= λ y. ok (ltb_ℤ x y)

unfoldable pub perform : Call → Block → Store → Result RunError Store
unfolding arith_value grid_next_pow2 heur_arg long_of heur_tensor heur_dtype compare_value
    operand_of none_value test_value read write enter leave
perform call end s = ok s
perform call (define v z k) s = enter v (some z) s >>= perform call k
perform call (set v o k) s = do x ← operand_of call o s; t ← write v x s; perform call k t
perform call (checked a l r v k) s = do
  x ← operand_of call l s
  y ← operand_of call r s
  z ← arith_value a x y
  t ← write v z s
  perform call k t
perform call (next_pow2 o v k) s = do
  x ← operand_of call o s
  z ← grid_next_pow2 x
  t ← write v z s
  perform call k t
perform call (argument i name v b k) s = do
  held ← or_undefined (get_elem? call.args i)
  pair ← heur_arg name held
  t ← write v pair.0 s
  u ← write b pair.1 t
  perform call k u
perform call (logical_not o v k) s = do
  x ← operand_of call o s
  t ← write v (bool_int (eqb_ℤ x (pos 0))) s
  perform call k t
perform call (compare c l r v k) s = do
  x ← operand_of call l s
  y ← operand_of call r s
  t ← write v (bool_int (compare_value c x y)) s
  perform call k t
perform call (test_none negate test v k) s = do
  b ← none_value call test
  t ← write v (bool_int (negated negate b)) s
  perform call k t
perform call (tensor i name method index v k) s = do
  held ← or_undefined (get_elem? call.args i)
  long ← long_of index
  x ← heur_tensor call held name method long
  t ← write v x s
  perform call k t
perform call (dtype i name v k) s = do
  held ← or_undefined (get_elem? call.args i)
  x ← heur_dtype call held name
  t ← write v x s
  perform call k t
perform call (branch test body orelse k) s =
    let taken = perform call body s in
    let otherwise = perform call orelse s in
    let side = λ (b : Bool). if b then taken else otherwise in
    test_value call test s >>= λ b. side b >>= λ after. perform call k (leave s after)
