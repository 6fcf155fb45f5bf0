-- ===== src/Lowering/Longs.antt =====
-- About heuristic.py, `_Emitter.tensor_call`: the literal indices of an expression, which are printed as
-- C longs.
use intj.Lowering.Emit.{
  Term, input, int_constant, bool_constant, none_constant, binary, unary, comparison, chained,
  bool_op, if_term, shape_at, attribute, named_call, triton_call, method_call, other_term, Terms,
  nil, cons,
}
use intj.Lowering.Meaning.{literal_index}
use intj.Lowering.Attributes.{IsLong}

-- Each literal index in the expression is within int64.
unfoldable mutual
  pub HasLongs : Term → Type 0
  HasLongs (input key) = Unit
  HasLongs (int_constant z) = Unit
  HasLongs (bool_constant b) = Unit
  HasLongs none_constant = Unit
  HasLongs (binary o l r) = HasLongs l × HasLongs r
  HasLongs (unary o e) = HasLongs e
  HasLongs (comparison c l r) = HasLongs l × HasLongs r
  HasLongs chained = Unit
  HasLongs (bool_op is_and first rest) = HasLongs first × HaveLongs rest
  HasLongs (if_term test body orelse) = HasLongs test × HasLongs body × HasLongs orelse
  HasLongs (shape_at target index) = IsLong (literal_index (cons index nil))
  HasLongs (attribute target attr) = Unit
  HasLongs (named_call f args) = HaveLongs args
  HasLongs (triton_call f args) = HaveLongs args
  HasLongs (method_call target method args) = IsLong (literal_index args)
  HasLongs other_term = Unit

  pub HaveLongs : Terms → Type 0
  HaveLongs nil = Unit
  HaveLongs (cons t ts) = HasLongs t × HaveLongs ts
