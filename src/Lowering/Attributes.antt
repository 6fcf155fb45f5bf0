-- ===== src/Lowering/Attributes.antt =====
-- About heuristic.py, `_Emitter`: tests for None, and the attributes of tensors.
use intj.Prelude.{
  ℕ, ◌+◌, ◌≡◌, refl, sym, subst, String, Bool, true, false, not, Option, some, ◌∷◌, Result, ok, err,
  ◌>>=◌, ◌>>◌, refuse, bind_elim, ok-inj, str_eq, none, some,
}
use intj.Prelude.Int.{ℤ, pos, fits_int64}
use intj.Prelude.Dict.{Dict}
use intj.Values.{Value}
use intj.Grid.Code.{RunError, overflow, not_a_tensor, Store, in_int64, write}
use intj.Grid.Emit.{bool_int}
use intj.Grid.Run.{get_elem?}
use intj.Grid.Meaning.{int_value, bool_value}
use intj.Grid.Stores.{Below, enter-Below}
use intj.Lowering.Code.{
  Call, Operand, Block, is_null_object, negated, perform, long_of, heur_tensor, heur_dtype,
  method_result, none_value,
}
use intj.Lowering.Emit.{
  Source, arg, fixed, dep, comp, Emitter, LowerError, source_of, LoweredTerm, lowered, flag_of,
  tensor_arg, tensor_call, emit_dtype, emit_none, none_test, Term, input, none_constant, attribute,
  Terms, nil, cons, int_constant, method_index,
}
use intj.Lowering.Meaning.{
  given_value, read_scalar, tensor_at, dtype_value, method_value, none_value_of, literal_index,
}
use intj.Lowering.Matches.{Matches, computed-Matches}
use intj.Lowering.Supplies.{Supplies, Supplied, source_of-Supplied}

-- The result of a method is a bool, or an int.
abbrev pub HasKind : Bool → Value → Type 0
HasKind is_bool (Value.bool b) = is_bool ≡ true
HasKind is_bool (Value.int z) = is_bool ≡ false
HasKind is_bool _ = ⊥

-- Of torch: `is_contiguous` gives a bool, and every other method that a heuristic may call an int.
abbrev pub HasKinds : Call → Type 0
HasKinds call =
    (v : Value) (method : String) (index : Option ℤ) (r : Value)
    → call.call_method v method index ≡ ok r
    → HasKind (str_eq method "is_contiguous") r

-- A literal index is a C `long`.
abbrev pub IsLong : Option ℤ → Type 0
IsLong none = Unit
IsLong (some z) = fits_int64 z ≡ true

long_of-IsLong : (index : Option ℤ) → IsLong index → long_of index ≡ ok index
unfolding long_of
long_of-IsLong none h = refl
long_of-IsLong (some z) h = rw h refl

none_test-value :
    (call : Call) (v : Value) (source : Source)
    → Supplied call v source
    → none_value call (none_test source) ≡ ok (is_null_object v)
unfolding none_value
none_test-value call v (arg i) h = rw h refl
none_test-value call v (fixed w) h =
    subst (λ u. none_value call (none_test (fixed w)) ≡ ok (is_null_object u)) h.0 (by_value w)
  where
    by_value : (w : Value) → none_value call (none_test (fixed w)) ≡ ok (is_null_object w)
    by_value Value.null = refl
    by_value (Value.bool b) = refl
    by_value (Value.int z) = refl
    by_value (Value.float x) = refl
    by_value (Value.str x) = refl
    by_value (Value.dtype x) = refl
    by_value (Value.jit a c d) = refl
    by_value (Value.object n) = refl
none_test-value call v (dep i) (int_value z, h, rest, more) = rw h refl
none_test-value call v (dep i) (bool_value b, h, rest, more) = rw h refl
none_test-value call v (comp i) (int_value z, h, rest, more) = rw h refl
none_test-value call v (comp i) (bool_value b, h, rest, more) = rw h refl

-- A new variable that a statement sets, or the error that the statement stops with.
abbrev pub after_set : ℕ → Store → Result RunError ℤ → Result RunError Store
after_set k s m = m >>= λ z. write k z ((k, some (pos 0)) ∷ s) >>= λ t. ok t

pub emit_none-Matches :
    (call : Call) (env : Dict Value) (em : Emitter) (negate : Bool) (l r : Term) (k : ℕ) (s : Store)
    {q : LoweredTerm}
    → Below k s
    → Supplies call env em.sources
    → emit_none em negate l r k ≡ ok q
    → Matches call k s q
        (none_value_of env l r >>= λ b. ok (bool_value (negated negate b)))
        (perform call q.code s)
unfolding emit_none none_value_of perform
emit_none-Matches call env em negate (input key) none_constant k s {q} b a h =
    bind_elim (source_of em key) _ h λ source hs last.
      let (v, e, g) = source_of-Supplied call env em key {s = source} a hs in
      subst
        (λ p.
          Matches call k s p
            (none_value_of env (input key) none_constant >>= λ b.
              ok (bool_value (negated negate b)))
            (perform call p.code s))
        (ok-inj last)
        (rw (none_value_of, e, enter-Below k (some (pos 0)) s b, none_test-value call v source g)
          (computed-Matches call k s
            (Block.define k (pos 0) (Block.test_none negate (none_test source) k Block.end))
            (ok (bool_int (negated negate (is_null_object v)))) true
            (λ z. bool_value (negated negate (is_null_object v))) (λ z q. sym (ok-inj q))
            λ z. refl))
emit_none-Matches call env em negate _ _ k s b a h = cc

tensor_arg-Supplied :
    (call : Call) (env : Dict Value) (em : Emitter) (target : Term) {found : String × ℕ}
    → Supplies call env em.sources
    → tensor_arg em target ≡ ok found
    → (v : Value) × (given_value env found.0 ≡ ok v)
      × (get_elem? call.args found.1 ≡ some v)
      × (target ≡ input found.0)
unfolding tensor_arg
tensor_arg-Supplied call env em (input key) {found} a h =
    bind_elim (source_of em key) _ h λ source hs last.
      let (v, e, g) = source_of-Supplied call env em key {s = source} a hs in
      by_source source v e g last
  where
    by_source :
        (source : Source) (v : Value)
        → given_value env key ≡ ok v
        → Supplied call v source
        → (elim source as (λ _. Result LowerError (String × ℕ)) [
          | arg i ↦ ok (key, i)
          | fixed w ↦ err LowerError.tensor_needed
          | dep i ↦ err LowerError.tensor_needed
          | comp i ↦ err LowerError.tensor_needed
        ])
          ≡ ok found
        → (v : Value) × (given_value env found.0 ≡ ok v)
          × (get_elem? call.args found.1 ≡ some v)
          × (input key ≡ input found.0)
    by_source (arg i) v e g last =
        subst
          (λ (p : String × ℕ).
            (v : Value) × (given_value env p.0 ≡ ok v)
            × (get_elem? call.args p.1 ≡ some v)
            × (input key ≡ input p.0))
          (ok-inj last) (v, e, g, refl)
    by_source (fixed w) v e g last = cc
    by_source (dep i) v e g last = cc
    by_source (comp i) v e g last = cc
tensor_arg-Supplied call env em _ a h = cc

method_index-literal :
    (takes_index : Bool) (args : Terms) {index : Option ℤ}
    → method_index takes_index args ≡ ok index
    → literal_index args ≡ index
unfolding method_index
method_index-literal false nil h = ok-inj h
method_index-literal false (cons t ts) h = cc
method_index-literal true (cons (int_constant z) nil) h = ok-inj h
method_index-literal true (cons t nil) h = cc
method_index-literal true nil h = cc
method_index-literal true (cons t (cons u ts)) h = cc

-- `intj_heur_tensor` into a new variable.
heur_tensor-Matches :
    (call : Call) (k : ℕ) (s : Store) (c : Block) (v : Value) (name method : String)
    (index : Option ℤ)
    → HasKinds call
    → Matches call k s
        (lowered c (Operand.variable k) (flag_of (str_eq method "is_contiguous")) (k + 1))
        (call.call_method v method index >>= read_scalar in_int64 overflow)
        (after_set k s (call.call_method v method index >>= method_result))
unfolding read_scalar method_result
heur_tensor-Matches call k s c v name method index kinds =
    by_result (call.call_method v method index) refl
  where
    by_kind :
        (b : Bool) (r : Value)
        → HasKind b r
        → Matches call k s
            (lowered c (Operand.variable k) (flag_of b) (k + 1))
            (read_scalar in_int64 overflow r)
            (after_set k s (method_result r))
    by_kind true (Value.bool b) h =
        computed-Matches call k s c (ok (bool_int b)) true (λ z. bool_value b)
          (λ z q. sym (ok-inj q)) λ z. refl
    by_kind false (Value.int z) h =
        computed-Matches call k s c (in_int64 z) false int_value (λ n q. refl) λ n. refl
    by_kind true (Value.int z) h = cc
    by_kind false (Value.bool b) h = cc
    by_kind b Value.null h = absurd h
    by_kind b (Value.float x) h = absurd h
    by_kind b (Value.str x) h = absurd h
    by_kind b (Value.dtype x) h = absurd h
    by_kind b (Value.jit m q d) h = absurd h
    by_kind b (Value.object n) h = absurd h

    by_result :
        (m : Result RunError Value)
        → call.call_method v method index ≡ m
        → Matches call k s
            (lowered c (Operand.variable k) (flag_of (str_eq method "is_contiguous")) (k + 1))
            (m >>= read_scalar in_int64 overflow)
            (after_set k s (m >>= method_result))
    by_result (ok r) e = by_kind (str_eq method "is_contiguous") r (kinds v method index r e)
    by_result (err e) h = refl

pub tensor_call-Matches :
    (call : Call) (env : Dict Value) (em : Emitter) (target : Term) (method : String) (b : Bool)
    (args : Terms) (k : ℕ) (s : Store) {q : LoweredTerm}
    → HasKinds call
    → IsLong (literal_index args)
    → Below k s
    → Supplies call env em.sources
    → tensor_call em target method b args k ≡ ok q
    → Matches call k s q
        (method_value call in_int64 env target method (literal_index args))
        (perform call q.code s)
unfolding tensor_call method_value tensor_at perform heur_tensor
tensor_call-Matches call env em target method b args k s {q} kinds long l a h =
    bind_elim (tensor_arg em target) _ h λ found hf h1.
      bind_elim (method_index b args) _ h1 λ index hi last.
        let (v, e, g, shape) = tensor_arg-Supplied call env em target {found = found} a hf in
        subst
          (λ p.
            Matches call k s p (method_value call in_int64 env target method (literal_index args))
              (perform call p.code s))
          (ok-inj last)
          (rw
            (
              shape,
              method_index-literal b args hi,
              method_value,
              tensor_at,
              e,
              enter-Below k (some (pos 0)) s l,
              g,
              long_of-IsLong index (subst IsLong (method_index-literal b args hi) long),
              heur_tensor,
            )
            (by_type (call.is_tensor v) v found index))
  where
    by_type :
        (t : Bool) (v : Value) (found : String × ℕ) (index : Option ℤ)
        → Matches call k s
            (lowered
              (Block.define k (pos 0) (Block.tensor found.1 found.0 method index k Block.end))
              (Operand.variable k)
              (flag_of (str_eq method "is_contiguous"))
              (k + 1))
            ((refuse (not t) (not_a_tensor found.0) >> ok v) >>= λ held.
              call.call_method held method index >>= read_scalar in_int64 overflow)
            (after_set k s (
              refuse (not t) (not_a_tensor found.0)
              >> (call.call_method v method index >>= method_result)))
    by_type true v found index =
        heur_tensor-Matches call k s
          (Block.define k (pos 0) (Block.tensor found.1 found.0 method index k Block.end)) v found.0
          method index kinds
    by_type false v found index = refl

pub emit_dtype-Matches :
    (call : Call) (env : Dict Value) (em : Emitter) (t : Term) (k : ℕ) (s : Store) {q : LoweredTerm}
    → Below k s
    → Supplies call env em.sources
    → emit_dtype em t k ≡ ok q
    → Matches call k s q (dtype_value call env t) (perform call q.code s)
unfolding emit_dtype dtype_value tensor_at perform heur_dtype
emit_dtype-Matches call env em (attribute target attr) k s {q} l a h =
    bind_elim (tensor_arg em target) _ h λ found hf last.
      let (v, e, g, shape) = tensor_arg-Supplied call env em target {found = found} a hf in
      subst
        (λ p.
          Matches call k s p (dtype_value call env (attribute target attr)) (perform call p.code s))
        (ok-inj last)
        (rw (shape, dtype_value, tensor_at, e, enter-Below k (some (pos 0)) s l, g, heur_dtype)
          (by_type (call.is_tensor v) v found))
  where
    by_type :
        (t : Bool) (v : Value) (found : String × ℕ)
        → Matches call k s
            (lowered
              (Block.define k (pos 0) (Block.dtype found.1 found.0 k Block.end))
              (Operand.variable k)
              (flag_of false)
              (k + 1))
            ((refuse (not t) (not_a_tensor found.0) >> ok v) >>= λ held.
              call.dtype_of held >>= λ z. ok (int_value z))
            (after_set k s (refuse (not t) (not_a_tensor found.0) >> call.dtype_of v))
    by_type true v found =
        computed-Matches call k s (Block.define k (pos 0) (Block.dtype found.1 found.0 k Block.end))
          (call.dtype_of v) false int_value (λ z q. refl) λ z. refl
    by_type false v found = refl
emit_dtype-Matches call env em _ k s l a h = cc
