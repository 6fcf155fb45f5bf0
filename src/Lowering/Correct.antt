-- ===== src/Lowering/Correct.antt =====
-- About heuristic.py, `_Emitter.emit`: one case for each kind of node.
use intj.Prelude.{
  ℕ, ◌+◌, ◌≡◌, refl, subst, true, false, not, Option, some, [], ◌∷◌, ◌++◌, ok, ◌>>=◌, bind_elim,
  refuse-eq-ok, ok-inj, arith,
}
use intj.Prelude.Int.{ℤ, pos, fits_int64}
use intj.Prelude.Dict.{Dict}
use intj.Values.{Value}
use intj.Grid.Code.{Store, Operation}
use intj.Grid.Meaning.{int_value, bool_value, as_int}
use intj.Grid.Stores.{Below}
use intj.Lowering.Code.{
  Call, Operand, Block, Arith, perform, operand_of, arith_value, grid_next_pow2, ◌andthen◌,
}
use intj.Lowering.Emit.{
  is_node, is_not_node, order, other_compare, Term, input, int_constant, bool_constant,
  none_constant, binary, unary, comparison, chained, bool_op, if_term, shape_at, attribute,
  named_call, triton_call, method_call, other_term, Terms, nil, cons, bad_arity, literal_outside,
  Emitter, flag_of, with_pair, set_pair, source_of, arith_of, method_of, extreme_of,
  triton_function, unary_code, is_not, within_literal, beats, emit,
}
use intj.Lowering.Meaning.{result_value, binary_value, unary_value, extreme, evaluate}
use intj.Lowering.Stores.{Gives, cells, Gives-append}
use intj.Lowering.Matches.{Matches}
use intj.Lowering.Supplies.{Supplies, source_of-Supplied}
use intj.Lowering.Inputs.{emit_input-Matches, at_hand-Matches}
use intj.Lowering.Attributes.{HasKinds, emit_none-Matches, tensor_call-Matches}
use intj.Lowering.Branches.{
  set_to, fresh_operand, checked-Matches, next_pow2-Matches, unary-Matches,
}
use intj.Lowering.Longs.{HasLongs, HaveLongs}
use intj.Lowering.Steps.{
  arith_of-meaning, within-fits, meant, Lowered, RestLowered, two-Matches, rest_step,
  bool_op-Lowered, if_term-Lowered, order-Lowered, one-Matches,
}
use intj.Lowering.Choices.{extreme_of-min, extreme-Matches}

module _ (call : Call) (env : Dict Value) (em : Emitter) (kinds : HasKinds call)
    (supplies : Supplies call env em.sources) where
  cell_operand :
      (n : ℕ) (o : Operand) (local s : Store) (p q : Option ℤ) {z : ℤ}
      → Below n local
      → Gives call o local z
      → operand_of call o (cells n p q (local ++ s)) ≡ ok z
  cell_operand n o local s p q l g =
      Gives-append call n o ((n + 1, q) ∷ (n, p) ∷ []) local l (omega arith, (omega arith, tt)) g s

  -- Lowered code does what Python's evaluation does with the C arithmetic: it leaves the same value
  -- and whether it is a bool, or stops with the same error.
  mutual
    unfolding HasLongs emit evaluate binary_value perform operand_of fits_int64

    pub emit-Lowered : (e : Term) → HasLongs e → Lowered call env em kinds supplies e
    emit-Lowered (input key) long k s r b h = bind_elim (source_of em key) _ h λ source hs last.
        let (v, e, g) = source_of-Supplied call env em key {s = source} supplies hs in
        rw e (emit_input-Matches call k s key source v b g last)
    emit-Lowered (int_constant z) long k s r b h =
        let checked = refuse-eq-ok (not (within_literal z)) literal_outside _ h in
        subst (λ q. Matches call k s q (ok (int_value z)) (perform call q.code s))
          (ok-inj checked.1)
          (at_hand-Matches call k s (Operand.literal z) (flag_of false) (int_value z)
            (λ t. rw (within-fits z checked.0) refl) λ t. refl)
    emit-Lowered (bool_constant true) long k s r b h =
        subst (λ q. Matches call k s q (ok (bool_value true)) (perform call q.code s)) (ok-inj h)
          (at_hand-Matches call k s (Operand.literal (pos 1)) (flag_of true) (bool_value true)
            (λ t. refl) λ t. refl)
    emit-Lowered (bool_constant false) long k s r b h =
        subst (λ q. Matches call k s q (ok (bool_value false)) (perform call q.code s)) (ok-inj h)
          (at_hand-Matches call k s (Operand.literal (pos 0)) (flag_of true) (bool_value false)
            (λ t. refl) λ t. refl)
    emit-Lowered none_constant long k s r b h = cc
    emit-Lowered (binary o l r) long k s q b h = bind_elim (arith_of o) _ h λ op hop h1.
        bind_elim (emit em l k) _ h1 λ x hx h2. bind_elim (emit em r x.serial) _ h2 λ y hy last.
          let n : ℕ = y.serial in
          let c : Block = Block.define n (pos 0) (Block.checked op x.value y.value n Block.end) in
          rw (arith_of-meaning o hop) (
            subst
              (λ p.
                Matches call k s p
                  (meant call env em kinds supplies l >>= λ v.
                    meant call env em kinds supplies r >>= binary_value arith_value (some op) v)
                  (perform call p.code s))
              (ok-inj last)
              (two-Matches call env em kinds supplies l r k s x y c (Operand.variable n)
                (flag_of false) (n + 1) (binary_value arith_value (some op)) (emit-Lowered l long.0)
                (emit-Lowered r long.1) b hx hy (omega arith)
                λ v w local g bl xv xf yv yf.
                  checked-Matches call n (local ++ s) (x.code andthen y.code andthen c) op x.value
                    y.value bl (fresh_operand call n x.value local s (some (pos 0)) g xv)
                    (fresh_operand call n y.value local s (some (pos 0)) g yv)))
    emit-Lowered (unary o e) long k s r b h = bind_elim (emit em e k) _ h λ x hx h1.
        bind_elim (unary_code o x.value x.serial) _ h1 λ c hc last.
          subst
            (λ p.
              Matches call k s p (meant call env em kinds supplies e >>= unary_value arith_value o)
                (perform call p.code s))
            (ok-inj last)
            (one-Matches call env em kinds supplies e k s x c (flag_of (is_not o))
              (unary_value arith_value o) (emit-Lowered e long) b hx
              λ v t bt xv. unary-Matches call x.serial t (x.code andthen c) c o x.value v bt xv hc)
    emit-Lowered (comparison is_node l r) long k s q b h =
        emit_none-Matches call env em false l r k s b supplies h
    emit-Lowered (comparison is_not_node l r) long k s q b h =
        emit_none-Matches call env em true l r k s b supplies h
    emit-Lowered (comparison other_compare l r) long k s q b h = cc
    emit-Lowered (comparison (order c) l r) long k s q b h =
        order-Lowered call env em kinds supplies c l r (emit-Lowered l long.0)
          (emit-Lowered r long.1) k s q b h
    emit-Lowered chained long k s r b h = cc
    emit-Lowered (bool_op is_and first rest) long k s r b h =
        bool_op-Lowered call env em kinds supplies is_and first rest (emit-Lowered first long.0)
          (emit_rest-Lowered rest long.1) k s r b h
    emit-Lowered (if_term test body orelse) long k s r b h =
        if_term-Lowered call env em kinds supplies test body orelse (emit-Lowered test long.0)
          (emit-Lowered body long.1) (emit-Lowered orelse long.2) k s r b h
    emit-Lowered (shape_at target index) long k s r b h =
        tensor_call-Matches call env em target "size" true (cons index nil) k s kinds long b
          supplies h
    emit-Lowered (attribute target attr) long k s r b h = cc
    emit-Lowered (named_call f (cons l (cons r nil))) long k s q b h =
        bind_elim (extreme_of em f) _ h λ is_min hm h1. bind_elim (emit em l k) _ h1 λ x hx h2.
          bind_elim (emit em r x.serial) _ h2 λ y hy last.
            let n : ℕ = y.serial in
            let c : Block = with_pair n (
              Block.branch (beats is_min y.value x.value) (set_pair n y.value y.flag Block.end)
                (set_pair n x.value x.flag Block.end) Block.end) in
            subst
              (λ p.
                Matches call k s p
                  (meant call env em kinds supplies l >>= λ v.
                    meant call env em kinds supplies r >>= extreme f v)
                  (perform call p.code s))
              (ok-inj last)
              (two-Matches call env em kinds supplies l r k s x y c (Operand.variable n)
                (Operand.variable (n + 1)) (n + 2) (extreme f) (emit-Lowered l long.0)
                (emit-Lowered r long.1.0) b hx hy (omega arith)
                λ v w local g bl xv xf yv yf.
                  extreme-Matches call n (local ++ s) (x.code andthen y.code andthen c) f is_min
                    x.value x.flag y.value y.flag v w bl (extreme_of-min em f hm)
                    (λ p q. cell_operand n x.value local s p q g xv)
                    (λ p q. cell_operand n x.flag local s p q g xf)
                    (λ p q. cell_operand n y.value local s p q g yv)
                    λ p q. cell_operand n y.flag local s p q g yf)
    emit-Lowered (named_call f nil) long k s r b h = cc
    emit-Lowered (named_call f (cons l nil)) long k s r b h = cc
    emit-Lowered (named_call f (cons l (cons c (cons d more)))) long k s r b h = cc
    emit-Lowered (triton_call f (cons e nil)) long k s r b h =
        bind_elim (triton_function em f) _ h λ is_cdiv hm h1.
          bind_elim (emit em e k) _ (refuse-eq-ok is_cdiv bad_arity _ h1).1 λ x hx last.
            let n : ℕ = x.serial in
            let c : Block = Block.define n (pos 0) (Block.next_pow2 x.value n Block.end) in
            subst
              (λ p.
                Matches call k s p
                  (meant call env em kinds supplies e >>= λ v.
                    result_value (grid_next_pow2 (as_int v)))
                  (perform call p.code s))
              (ok-inj last)
              (one-Matches call env em kinds supplies e k s x c (flag_of false)
                (λ v. result_value (grid_next_pow2 (as_int v))) (emit-Lowered e long.0) b hx
                λ v t bt xv. next_pow2-Matches call n t (x.code andthen c) x.value bt xv)
    emit-Lowered (triton_call f (cons l (cons r nil))) long k s q b h =
        bind_elim (triton_function em f) _ h λ is_cdiv hm h1.
          bind_elim (emit em l k) _ (refuse-eq-ok (not is_cdiv) bad_arity _ h1).1 λ x hx h2.
            bind_elim (emit em r x.serial) _ h2 λ y hy last.
              let n : ℕ = y.serial in
              let op : Arith = Arith.grid_operation Operation.cdiv in
              let c : Block =
                Block.define n (pos 0) (Block.checked op x.value y.value n Block.end) in
              subst
                (λ p.
                  Matches call k s p
                    (meant call env em kinds supplies l >>= λ v.
                      meant call env em kinds supplies r >>= binary_value arith_value (some op) v)
                    (perform call p.code s))
                (ok-inj last)
                (two-Matches call env em kinds supplies l r k s x y c (Operand.variable n)
                  (flag_of false) (n + 1) (binary_value arith_value (some op))
                  (emit-Lowered l long.0) (emit-Lowered r long.1.0) b hx hy (omega arith)
                  λ v w local g bl xv xf yv yf.
                    checked-Matches call n (local ++ s) (x.code andthen y.code andthen c) op x.value
                      y.value bl (fresh_operand call n x.value local s (some (pos 0)) g xv)
                      (fresh_operand call n y.value local s (some (pos 0)) g yv))
    emit-Lowered (triton_call f nil) long k s r b h =
        bind_elim (triton_function em f) _ h λ m hm last. cc
    emit-Lowered (triton_call f (cons l (cons c (cons d more)))) long k s r b h =
        bind_elim (triton_function em f) _ h λ m hm last. cc
    emit-Lowered (method_call target method args) long k s r b h =
        bind_elim (method_of method) _ h λ takes_index hb last.
          tensor_call-Matches call env em target method takes_index args k s kinds long b supplies
            last
    emit-Lowered other_term long k s r b h = cc

    emit_rest-Lowered : (ts : Terms) → HaveLongs ts → RestLowered call env em kinds supplies ts
    emit_rest-Lowered nil long is_and k n s extra v p h b g l e =
        subst (λ (q : Block × ℕ). perform call q.0 (set_to k extra s v) ≡ ok (set_to k extra s v))
          (ok-inj e) refl
    emit_rest-Lowered (cons t ts) long is_and k n s extra v p h b g l e =
        rest_step call env em kinds supplies t ts (emit-Lowered t long.0)
          (emit_rest-Lowered ts long.1) is_and k n s extra v p h b g l e
