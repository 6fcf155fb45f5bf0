-- ===== src/Lowering/Serial.antt =====
-- About heuristic.py, `_Emitter.temp`: the counter of the variables.
use intj.Prelude.{
  ℕ, ◌+◌, ◌≤◌, ◌≡◌, String, Bool, true, false, not, ◌&&◌, ◌||◌, ok, refuse-eq-ok, bind_elim, arith,
  Bool-cases, inl, inr,
}
use intj.Lowering.Code.{Block}
use intj.Lowering.Emit.{
  is_node, is_not_node, order, other_compare, Term, input, int_constant, bool_constant,
  none_constant, binary, unary, comparison, chained, bool_op, if_term, shape_at, attribute,
  named_call, triton_call, method_call, other_term, Terms, nil, cons, bad_arity, bad_dtype, Source,
  arg, fixed, dep, comp, Emitter, LoweredTerm, source_of, emit_input, arith_of, tensor_call,
  method_index, tensor_arg, method_of, emit_dtype, emit_none, is_dtype, is_equality, extreme_of,
  triton_function, unary_code, emit, emit_rest,
}

pub emit_input-le_serial :
    (key : String) (s : Source) (k : ℕ) {r : LoweredTerm} → emit_input key s k ≡ ok r → k ≤ r.serial
unfolding emit_input
emit_input-le_serial key (arg i) k h = ground arith
emit_input-le_serial key (fixed v) k h = ground arith
emit_input-le_serial key (dep i) k h = ground arith
emit_input-le_serial key (comp i) k h = ground arith

pub emit_dtype-le_serial :
    (em : Emitter) (t : Term) (k : ℕ) {r : LoweredTerm} → emit_dtype em t k ≡ ok r → k ≤ r.serial
unfolding emit_dtype
emit_dtype-le_serial em (attribute target attr) k h =
    bind_elim (tensor_arg em target) _ h λ found hf last. ground arith
emit_dtype-le_serial em _ k h = cc

pub tensor_call-le_serial :
    (em : Emitter) (target : Term) (method : String) (b : Bool) (args : Terms) (k : ℕ)
    {r : LoweredTerm}
    → tensor_call em target method b args k ≡ ok r
    → k ≤ r.serial
unfolding tensor_call
tensor_call-le_serial em target method b args k h =
    bind_elim (tensor_arg em target) _ h
      λ found hf h1. bind_elim (method_index b args) _ h1 λ index hi last. ground arith

pub emit_none-le_serial :
    (em : Emitter) (negate : Bool) (l r : Term) (k : ℕ) {q : LoweredTerm}
    → emit_none em negate l r k ≡ ok q
    → k ≤ q.serial
unfolding emit_none
emit_none-le_serial em negate (input key) none_constant k h =
    bind_elim (source_of em key) _ h λ s hs last. ground arith
emit_none-le_serial em negate _ _ k h = cc

-- The counter never goes back.
mutual
  unfolding emit

  pub emit-le_serial :
      (em : Emitter) (e : Term) (k : ℕ) {r : LoweredTerm} → emit em e k ≡ ok r → k ≤ r.serial
  emit-le_serial em (input key) k h =
      bind_elim (source_of em key) _ h λ s hs last. emit_input-le_serial key s k last
  emit-le_serial em (int_constant z) k h = ground arith
  emit-le_serial em (bool_constant b) k h = ground arith
  emit-le_serial em none_constant k h = cc
  emit-le_serial em (binary o l r) k h = bind_elim (arith_of o) _ h λ op ho h1.
      bind_elim (emit em l k) _ h1 λ x hx h2. bind_elim (emit em r x.serial) _ h2 λ y hy last.
        let a = emit-le_serial em l k hx in let b = emit-le_serial em r x.serial hy in ground arith
  emit-le_serial em (unary o e) k h = bind_elim (emit em e k) _ h λ x hx h1.
      bind_elim (unary_code o x.value x.serial) _ h1
        λ c hc last. let a = emit-le_serial em e k hx in ground arith
  emit-le_serial em (comparison is_node l r) k h = emit_none-le_serial em false l r k h
  emit-le_serial em (comparison is_not_node l r) k h = emit_none-le_serial em true l r k h
  emit-le_serial em (comparison other_compare l r) k h = cc
  emit-le_serial em (comparison (order c) l r) k {r = q} h =
      elim (Bool-cases (is_dtype l || is_dtype r)) [
        | inl typed ↦
            bind_elim (emit_dtype em l (k + 1)) _
              (refuse-eq-ok (not (is_equality c && is_dtype l && is_dtype r)) bad_dtype _
                (rw typed at h)).1
              λ x hx h1. bind_elim (emit_dtype em r x.serial) _ h1 λ y hy last.
                let a = emit_dtype-le_serial em l (k + 1) hx in
                let b = emit_dtype-le_serial em r x.serial hy in ground arith
        | inr plain ↦ bind_elim (emit em l (k + 1)) _ (rw plain at h) λ x hx h1.
            bind_elim (emit em r x.serial) _ h1 λ y hy last.
              let a = emit-le_serial em l (k + 1) hx in
              let b = emit-le_serial em r x.serial hy in ground arith
      ]
  emit-le_serial em chained k h = cc
  emit-le_serial em (bool_op is_and first rest) k h =
      bind_elim (emit em first (k + 2)) _ h λ x hx h1.
        bind_elim (emit_rest em is_and k rest x.serial) _ h1 λ p hp last.
          let a = emit-le_serial em first (k + 2) hx in
          let b = emit_rest-le_serial em is_and k rest x.serial hp in ground arith
  emit-le_serial em (if_term test body orelse) k h = bind_elim (emit em test (k + 2)) _ h λ t ht h1.
      bind_elim (emit em body t.serial) _ h1 λ x hx h2.
        bind_elim (emit em orelse x.serial) _ h2 λ y hy last.
          let a = emit-le_serial em test (k + 2) ht in
          let b = emit-le_serial em body t.serial hx in
          let c = emit-le_serial em orelse x.serial hy in ground arith
  emit-le_serial em (shape_at target index) k h =
      tensor_call-le_serial em target "size" true (cons index nil) k h
  emit-le_serial em (attribute target attr) k h = cc
  emit-le_serial em (named_call f (cons a (cons c nil))) k h =
      bind_elim (extreme_of em f) _ h λ m hm h1. bind_elim (emit em a k) _ h1 λ x hx h2.
        bind_elim (emit em c x.serial) _ h2 λ y hy last.
          let p = emit-le_serial em a k hx in
          let q = emit-le_serial em c x.serial hy in ground arith
  emit-le_serial em (named_call f nil) k h = cc
  emit-le_serial em (named_call f (cons a nil)) k h = cc
  emit-le_serial em (named_call f (cons a (cons c (cons d more)))) k h = cc
  emit-le_serial em (triton_call f (cons a nil)) k h =
      bind_elim (triton_function em f) _ h λ m hm h1.
        bind_elim (emit em a k) _ (refuse-eq-ok m bad_arity _ h1).1
          λ x hx last. let p = emit-le_serial em a k hx in ground arith
  emit-le_serial em (triton_call f (cons a (cons c nil))) k h =
      bind_elim (triton_function em f) _ h λ m hm h1.
        bind_elim (emit em a k) _ (refuse-eq-ok (not m) bad_arity _ h1).1 λ x hx h2.
          bind_elim (emit em c x.serial) _ h2 λ y hy last.
            let p = emit-le_serial em a k hx in
            let q = emit-le_serial em c x.serial hy in ground arith
  emit-le_serial em (triton_call f nil) k h = bind_elim (triton_function em f) _ h λ m hm last. cc
  emit-le_serial em (triton_call f (cons a (cons c (cons d more)))) k h =
      bind_elim (triton_function em f) _ h λ m hm last. cc
  emit-le_serial em (method_call target method args) k h =
      bind_elim (method_of method) _ h
        λ b hb last. tensor_call-le_serial em target method b args k last
  emit-le_serial em other_term k h = cc

  pub emit_rest-le_serial :
      (em : Emitter) (is_and : Bool) (k : ℕ) (ts : Terms) (n : ℕ) {p : Block × ℕ}
      → emit_rest em is_and k ts n ≡ ok p
      → n ≤ p.1
  emit_rest-le_serial em is_and k nil n h = ground arith
  emit_rest-le_serial em is_and k (cons t ts) n h = bind_elim (emit em t n) _ h λ x hx h1.
      bind_elim (emit_rest em is_and k ts x.serial) _ h1 λ p hp last.
        let a = emit-le_serial em t n hx in
        let b = emit_rest-le_serial em is_and k ts x.serial hp in ground arith
