-- ===== src/Lowering/Steps.antt =====
-- About heuristic.py, `_Emitter.emit`: the cases that join the code of several expressions.
use intj.Prelude.{
  ℕ, ◌+◌, ◌≤◌, ◌≡◌, refl, ap, ◌∙◌, subst, Bool, true, false, not, ◌&&◌, ◌||◌, some, [], ◌∷◌, ◌++◌,
  Result, ok, ◌>>=◌, bind_elim, refuse-eq-ok, ok-inj, arith, if◌then◌else◌, Bool-cases, inl, inr,
}
use intj.Prelude.Int.{ℤ, pos, fits_int64, eqb_ℤ}
use intj.Prelude.Dict.{Dict}
use intj.Values.{Value}
use intj.Grid.Code.{RunError, Store, leave, in_int64}
use intj.Grid.Meaning.{Scalar, as_int}
use intj.Grid.Stores.{Below, Below-weaken, From, bind-ok}
use intj.Lowering.Code.{
  Call, Operand, Block, Test, Arith, Comparison, perform, operand_of, test_value, arith_value,
  grid_next_pow2, ◌andthen◌,
}
use intj.Lowering.Emit.{
  BinaryNode, add_node, sub_node, mult_node, floor_div_node, mod_node, other_node, order, Term,
  comparison, bool_op, if_term, Terms, cons, bad_dtype, Emitter, LoweredTerm, lowered, with_pair,
  set_pair, arith_of, emit_dtype, is_dtype, is_equality, within_literal, go_on, emit, emit_rest,
}
use intj.Lowering.Meaning.{truth, goes_on, meaning_of, dtype_value, evaluate, evaluate_rest}
use intj.Lowering.Stores.{
  Gives, cells, perform-with_pair, perform-set_pair, perform-branch, read_cell, leave-cells,
  Below-cells,
}
use intj.Lowering.Matches.{
  Matches, flag_value, Matches-rebase, sequence_elim, operands_elim, Below-append,
}
use intj.Lowering.Serial.{emit-le_serial, emit_rest-le_serial, emit_dtype-le_serial}
use intj.Lowering.Supplies.{Supplies}
use intj.Lowering.Attributes.{HasKinds, emit_dtype-Matches}
use intj.Lowering.Branches.{set_to, block_lem, fresh_operand, not-not}
use intj.Lowering.Choices.{compared-Matches, outer_pair-Matches}

pub arith_of-meaning : (o : BinaryNode) {op : Arith} → arith_of o ≡ ok op → meaning_of o ≡ some op
unfolding arith_of
arith_of-meaning add_node h = ap some (ok-inj h)
arith_of-meaning sub_node h = ap some (ok-inj h)
arith_of-meaning mult_node h = ap some (ok-inj h)
arith_of-meaning floor_div_node h = ap some (ok-inj h)
arith_of-meaning mod_node h = ap some (ok-inj h)
arith_of-meaning other_node h = cc

pub within-fits : (z : ℤ) → not (within_literal z) ≡ false → fits_int64 z ≡ true
unfolding fits_int64
within-fits z h = ground arith

-- One step of `and` or `or`.
go_on_lem :
    (call : Call) (is_and : Bool) (k : ℕ) (c : Block) (extra s : Store) (v : Scalar)
    → From (k + 2) extra
    → perform call (go_on is_and k c) (set_to k extra s v) ≡ (
        (if goes_on is_and v then perform call c (set_to k extra s v) else ok (set_to k extra s v))
        >>= λ after. ok (leave (set_to k extra s v) after))
unfolding perform test_value operand_of
go_on_lem call true k c extra s v g =
    rw
      (perform-branch call (Test.holds (Operand.variable k)) c Block.end (set_to k extra s v)
        {b = truth v} (rw (read_cell k extra s (as_int v) (some (flag_value v)) g) refl))
      refl
go_on_lem call false k c extra s v g =
    rw
      (
        not-not (eqb_ℤ (as_int v) (pos 0)),
        perform-branch call (Test.fails (Operand.variable k)) c Block.end (set_to k extra s v)
            {b = eqb_ℤ (as_int v) (pos 0)}
            (rw (read_cell k extra s (as_int v) (some (flag_value v)) g) refl),
      )
      refl

module _ (call : Call) (env : Dict Value) (em : Emitter) (kinds : HasKinds call)
    (supplies : Supplies call env em.sources) where
  abbrev pub meant : Term → Result RunError Scalar
  meant e = evaluate call in_int64 arith_value grid_next_pow2 env e

  abbrev pub rest_meant : Bool → Terms → Scalar → Result RunError Scalar
  rest_meant is_and ts v = evaluate_rest call in_int64 arith_value grid_next_pow2 env is_and ts v

  abbrev pub Lowered : Term → Type 0
  Lowered e =
      (k : ℕ) (s : Store) (r : LoweredTerm)
      → Below k s
      → emit em e k ≡ ok r
      → Matches call k s r (meant e) (perform call r.code s)

  abbrev pub RestLowered : Terms → Type 0
  RestLowered ts =
      (is_and : Bool) (k n : ℕ) (s extra : Store) (v : Scalar) (p : Block × ℕ)
      → k + 2 ≤ n
      → Below k s
      → From (k + 2) extra
      → Below n extra
      → emit_rest em is_and k ts n ≡ ok p
      → perform call p.0 (set_to k extra s v)
        ≡ (rest_meant is_and ts v >>= λ w. ok (set_to k extra s w))

  -- Two operands, and a computation in a new variable.
  pub two-Matches :
      (l r : Term) (k : ℕ) (s : Store) (x y : LoweredTerm) (c : Block) (value flag : Operand)
      (j : ℕ) (f : Scalar → Scalar → Result RunError Scalar)
      → Lowered l
      → Lowered r
      → Below k s
      → emit em l k ≡ ok x
      → emit em r x.serial ≡ ok y
      → y.serial ≤ j
      → ((v w : Scalar) (local : Store)
          → Below y.serial local
          → Below y.serial (local ++ s)
          → Gives call x.value local (as_int v)
          → Gives call x.flag local (flag_value v)
          → Gives call y.value local (as_int w)
          → Gives call y.flag local (flag_value w)
          → Matches call y.serial
              (local ++ s)
              (lowered (x.code andthen y.code andthen c) value flag j)
              (f v w)
              (perform call c (local ++ s)))
      → Matches call k s
          (lowered (x.code andthen y.code andthen c) value flag j)
          (meant l >>= λ v. meant r >>= f v)
          (perform call (x.code andthen y.code andthen c) s)
  two-Matches l r k s x y c value flag j f hl hr b hx hy h next =
      let le_x = emit-le_serial em l k hx in
      let le_y = emit-le_serial em r x.serial hy in
      operands_elim call k s x y c (meant l) (meant r) f
        (Matches call k s (lowered (x.code andthen y.code andthen c) value flag j)) le_x le_y b
        (hl k s x b hx) (λ t bt. hr x.serial t y bt hy) (λ e. refl)
        λ v w local g l2 xv xf yv yf.
          Matches-rebase call k y.serial local s
            (lowered (x.code andthen y.code andthen c) value flag j) (f v w) _ (omega arith) h g l2
            (next v w local l2 (Below-append k y.serial local s (omega arith) l2 b) xv xf yv yf)

  pub rest_step : (t : Term) (ts : Terms) → Lowered t → RestLowered ts → RestLowered (cons t ts)
  unfolding emit_rest evaluate
  rest_step t ts ht hts is_and k n s extra v p h b g l e = bind_elim (emit em t n) _ e λ x hx e1.
      bind_elim (emit_rest em is_and k ts x.serial) _ e1 λ others ho last.
        subst
          (λ (q : Block × ℕ).
            perform call q.0 (set_to k extra s v)
            ≡ (rest_meant is_and (cons t ts) v >>= λ w. ok (set_to k extra s w)))
          (ok-inj last)
          (go_on_lem call is_and k (x.code andthen set_pair k x.value x.flag others.0) extra s v g
            ∙ by_test x others hx ho (goes_on is_and v))
    where
      by_test :
          (x : LoweredTerm) (others : Block × ℕ)
          → emit em t n ≡ ok x
          → emit_rest em is_and k ts x.serial ≡ ok others
          → (go : Bool)
          → ((if go
                then perform call
                    (x.code andthen set_pair k x.value x.flag others.0)
                    (set_to k extra s v)
                else ok (set_to k extra s v))
              >>= λ after. ok (leave (set_to k extra s v) after))
            ≡ ((if go then (meant t >>= rest_meant is_and ts) else ok v) >>= λ w.
                ok (set_to k extra s w))
      by_test x others hx ho true =
          let le_x = emit-le_serial em t n hx in
          block_lem call k n s extra x others.0 (meant t) (rest_meant is_and ts) (some (as_int v))
            (some (flag_value v)) h le_x g l
            (ht n (set_to k extra s v) x
              (Below-cells k n extra s (some (as_int v)) (some (flag_value v)) b h l) hx)
            λ w local g2 l2. hts is_and k x.serial s local w others (omega arith) b g2 l2 ho
      by_test x others hx ho false = ap ok (
          leave-cells k [] extra s (some (as_int v)) (some (flag_value v)) (some (as_int v))
            (some (flag_value v)))

  pub bool_op-Lowered :
      (is_and : Bool) (first : Term) (rest : Terms)
      → Lowered first
      → RestLowered rest
      → Lowered (bool_op is_and first rest)
  unfolding emit evaluate
  bool_op-Lowered is_and first rest hf hr k s r b h =
      bind_elim (emit em first (k + 2)) _ h λ x hx h1.
        bind_elim (emit_rest em is_and k rest x.serial) _ h1 λ others ho last.
          let le_x = emit-le_serial em first (k + 2) hx in
          let le = emit_rest-le_serial em is_and k rest x.serial ho in
          subst
            (λ q. Matches call k s q (meant (bool_op is_and first rest)) (perform call q.code s))
            (ok-inj last)
            (rw (perform-with_pair call k (x.code andthen set_pair k x.value x.flag others.0) s b) (
              sequence_elim call (k + 2) (cells k (some (pos 0)) (some (pos 0)) s) x
                (set_pair k x.value x.flag others.0) (meant first) (rest_meant is_and rest)
                (Matches call k s (
                  lowered (with_pair k (x.code andthen set_pair k x.value x.flag others.0))
                    (Operand.variable k) (Operand.variable (k + 1)) others.1))
                (hf (k + 2) (cells k (some (pos 0)) (some (pos 0)) s) x
                  (Below-cells k (k + 2) [] s (some (pos 0)) (some (pos 0)) b (omega arith) tt) hx)
                (λ e. refl)
                λ v more g l xv xf.
                  rw
                    (
                      perform-set_pair call k x.value x.flag others.0 more s (some (pos 0))
                          (some (pos 0)) {x = as_int v} {y = flag_value v} g
                          (xv (cells k (some (pos 0)) (some (pos 0)) s))
                          (xf (cells k (some (as_int v)) (some (pos 0)) s)),
                      hr is_and k x.serial s more v others (omega arith) b g l ho,
                    )
                    (outer_pair-Matches call k others.1 more s
                      (with_pair k (x.code andthen set_pair k x.value x.flag others.0))
                      (rest_meant is_and rest v) g (Below-weaken x.serial others.1 more le l)
                      (omega arith))))

  -- One side of a conditional expression.
  side-Matches :
      (e : Term) (k n j : ℕ) (more s : Store) (x : LoweredTerm) (c : Block)
      → Lowered e
      → Below k s
      → k + 2 ≤ n
      → n ≤ j
      → From (k + 2) more
      → Below n more
      → Below j more
      → emit em e n ≡ ok x
      → Matches call k s (lowered c (Operand.variable k) (Operand.variable (k + 1)) j) (meant e) (
          perform call
            (x.code andthen set_pair k x.value x.flag Block.end)
            (more ++ cells k (some (pos 0)) (some (pos 0)) s)
          >>= λ after. ok (leave (more ++ cells k (some (pos 0)) (some (pos 0)) s) after))
  unfolding perform
  side-Matches e k n j more s x c he b h hj g l lj hx =
      rw
        (block_lem call k n s more x Block.end (meant e) ok (some (pos 0)) (some (pos 0)) h
            (emit-le_serial em e n hx) g l
            (he n (more ++ cells k (some (pos 0)) (some (pos 0)) s) x
              (Below-cells k n more s (some (pos 0)) (some (pos 0)) b h l) hx)
            (λ v local g2 l2. refl)
          ∙ ap (λ m. m >>= λ w. ok (set_to k more s w)) (bind-ok (meant e)))
        (outer_pair-Matches call k j more s c (meant e) g lj (omega arith))

  pub if_term-Lowered :
      (test body orelse : Term)
      → Lowered test
      → Lowered body
      → Lowered orelse
      → Lowered (if_term test body orelse)
  unfolding emit evaluate test_value
  if_term-Lowered test body orelse ht hb ho k s r b h =
      bind_elim (emit em test (k + 2)) _ h λ t htest h1.
        bind_elim (emit em body t.serial) _ h1 λ x hx h2.
          bind_elim (emit em orelse x.serial) _ h2 λ y hy last.
            let le_t = emit-le_serial em test (k + 2) htest in
            let le_x = emit-le_serial em body t.serial hx in
            let le_y = emit-le_serial em orelse x.serial hy in
            let taken : Block = x.code andthen set_pair k x.value x.flag Block.end in
            let otherwise : Block = y.code andthen set_pair k y.value y.flag Block.end in
            let choice : Block = Block.branch (Test.holds t.value) taken otherwise Block.end in
            let inside : Store = cells k (some (pos 0)) (some (pos 0)) s in
            let whole : Block = with_pair k (t.code andthen choice) in
            subst
              (λ q. Matches call k s q (meant (if_term test body orelse)) (perform call q.code s))
              (ok-inj last)
              (rw (perform-with_pair call k (t.code andthen choice) s b) (
                sequence_elim call (k + 2) inside t choice (meant test)
                  (λ v. if truth v then meant body else meant orelse)
                  (Matches call k s
                    (lowered whole (Operand.variable k) (Operand.variable (k + 1)) y.serial))
                  (ht (k + 2) inside t
                    (Below-cells k (k + 2) [] s (some (pos 0)) (some (pos 0)) b (omega arith) tt)
                    htest)
                  (λ e. refl)
                  λ v more g l tv tf.
                    rw
                      (perform-branch call (Test.holds t.value) taken otherwise (more ++ inside)
                        {b = truth v} (rw (tv inside) refl))
                      (elim (Bool-cases (truth v)) [
                        | inl hit ↦ rw hit (
                            side-Matches body k t.serial y.serial more s x whole hb b (omega arith)
                              (omega arith) g l
                              (Below-weaken t.serial y.serial more (omega arith) l) hx)
                        | inr miss ↦ rw miss (
                            side-Matches orelse k x.serial y.serial more s y whole ho b
                              (omega arith) le_y g (Below-weaken t.serial x.serial more le_x l)
                              (Below-weaken t.serial y.serial more (omega arith) l) hy)
                      ])))

  pub order-Lowered :
      (c : Comparison) (l r : Term) → Lowered l → Lowered r → Lowered (comparison (order c) l r)
  unfolding emit evaluate
  order-Lowered c l r hl hr k s q b h = elim (Bool-cases (is_dtype l || is_dtype r)) [
    | inl typed ↦
        let checked =
          refuse-eq-ok (not (is_equality c && is_dtype l && is_dtype r)) bad_dtype _
            (rw typed at h) in
        bind_elim (emit_dtype em l (k + 1)) _ checked.1 λ x hx h1.
          bind_elim (emit_dtype em r x.serial) _ h1 λ y hy last.
            let left : is_dtype l ≡ true = ground (arith, checked.0) in
            subst
              (λ p. Matches call k s p (meant (comparison (order c) l r)) (perform call p.code s))
              (ok-inj last)
              (rw left (
                compared-Matches call k s c x y (dtype_value call env l) (dtype_value call env r)
                  (emit_dtype-le_serial em l (k + 1) hx) (emit_dtype-le_serial em r x.serial hy) b
                  (λ t bt. emit_dtype-Matches call env em l (k + 1) t bt supplies hx)
                  λ t bt. emit_dtype-Matches call env em r x.serial t bt supplies hy))
    | inr plain ↦ bind_elim (emit em l (k + 1)) _ (rw plain at h) λ x hx h1.
        bind_elim (emit em r x.serial) _ h1 λ y hy last.
          let left : is_dtype l ≡ false = ground arith in
          subst (λ p. Matches call k s p (meant (comparison (order c) l r)) (perform call p.code s))
            (ok-inj last)
            (rw left (
              compared-Matches call k s c x y (meant l) (meant r) (emit-le_serial em l (k + 1) hx)
                (emit-le_serial em r x.serial hy) b (λ t bt. hl (k + 1) t x bt hx)
                λ t bt. hr x.serial t y bt hy))
  ]

  -- One operand, and a computation in a new variable.
  pub one-Matches :
      (e : Term) (k : ℕ) (s : Store) (x : LoweredTerm) (c : Block) (flag : Operand)
      (f : Scalar → Result RunError Scalar)
      → Lowered e
      → Below k s
      → emit em e k ≡ ok x
      → ((v : Scalar) (t : Store)
          → Below x.serial t
          → operand_of call x.value ((x.serial, some (pos 0)) ∷ t) ≡ ok (as_int v)
          → Matches call x.serial t
              (lowered (x.code andthen c) (Operand.variable x.serial) flag (x.serial + 1))
              (f v)
              (perform call c t))
      → Matches call k s
          (lowered (x.code andthen c) (Operand.variable x.serial) flag (x.serial + 1))
          (meant e >>= f)
          (perform call (x.code andthen c) s)
  one-Matches e k s x c flag f he b hx next =
      let whole : LoweredTerm =
        lowered (x.code andthen c) (Operand.variable x.serial) flag (x.serial + 1) in
      let le_x = emit-le_serial em e k hx in
      sequence_elim call k s x c (meant e) f (Matches call k s whole) (he k s x b hx) (λ e. refl)
        λ v extra g l xv xf.
          Matches-rebase call k x.serial extra s whole (f v) _ le_x (omega arith) g l (
            next v (extra ++ s) (Below-append k x.serial extra s le_x l b)
              (fresh_operand call x.serial x.value extra s (some (pos 0)) l xv))
