-- ===== src/Lowering/Branches.antt =====
-- About heuristic.py, `_Emitter`: blocks that set the variables of a `pair`, and single statements.
use mathlib.Core.List.{append_assoc}
use intj.Prelude.{
  ℕ, ◌+◌, ◌≤◌, ◌≡◌, refl, sym, ap, ◌∙◌, Bool, true, false, not, Option, some, [], ◌∷◌, ◌++◌,
  All-append, Result, ok, err, ◌>>=◌, ok-inj, arith,
}
use intj.Prelude.Int.{ℤ, pos, eqb_ℤ, fits_int64}
use intj.Grid.Code.{RunError, Store, leave, Operation}
use intj.Grid.Emit.{bool_int}
use intj.Grid.Meaning.{Scalar, int_value, bool_value, as_int}
use intj.Grid.Stores.{Below, From, From-weaken, Below-weaken, enter-Below}
use intj.Lowering.Code.{
  Call, Operand, Block, Arith, perform, operand_of, arith_value, grid_next_pow2, ◌andthen◌,
}
use intj.Lowering.Emit.{
  LoweredTerm, lowered, flag_of, set_pair, UnaryNode, not_node, usub_node, uadd_node, invert_node,
  unary_code, is_not,
}
use intj.Lowering.Meaning.{truth, result_value, unary_value}
use intj.Lowering.Stores.{Gives, Gives-append, cells, perform-set_pair, leave-cells}
use intj.Lowering.Matches.{Matches, flag_value, computed-Matches, sequence_elim}

-- A pair's variables, set to a value.
abbrev pub set_to : ℕ → Store → Store → Scalar → Store
set_to k extra s v = extra ++ cells k (some (as_int v)) (some (flag_value v)) s

-- A block that computes a value, sets the pair to it, and goes on.
pub block_lem :
    (call : Call) (k n : ℕ) (s extra : Store) (x : LoweredTerm) (c : Block)
    (m : Result RunError Scalar) (f : Scalar → Result RunError Scalar) (p q : Option ℤ)
    → k + 2 ≤ n
    → n ≤ x.serial
    → From (k + 2) extra
    → Below n extra
    → Matches call n (extra ++ cells k p q s) x m (perform call x.code (extra ++ cells k p q s))
    → ((v : Scalar) (local : Store)
        → From (k + 2) local
        → Below x.serial local
        → perform call c (set_to k local s v) ≡ (f v >>= λ w. ok (set_to k local s w)))
    → (perform call (x.code andthen set_pair k x.value x.flag c) (extra ++ cells k p q s)
        >>= λ after. ok (leave (extra ++ cells k p q s) after))
      ≡ (m >>= f >>= λ w. ok (set_to k extra s w))
block_lem call k n s extra x c m f p q h j g l mx next =
    sequence_elim call n (extra ++ cells k p q s) x (set_pair k x.value x.flag c) m f
      (λ m' out.
        (out >>= λ after. ok (leave (extra ++ cells k p q s) after))
        ≡ (m' >>= λ w. ok (set_to k extra s w)))
      mx (λ e. refl)
      λ v more g2 l2 xv xf.
        let wide : From (k + 2) (more ++ extra) =
          All-append _ more extra (From-weaken (k + 2) n more h g2) g in
        rw
          (
            ← append_assoc more extra (cells k p q s),
            perform-set_pair call k x.value x.flag c (more ++ extra) s p q {x = as_int v}
                {y = flag_value v} wide
                (rw (append_assoc more extra (cells k p q s)) (xv (extra ++ cells k p q s)))
                (rw (append_assoc more extra (cells k (some (as_int v)) q s))
                  (xf (extra ++ cells k (some (as_int v)) q s))),
            next v (more ++ extra) wide
                (All-append _ more extra l2 (Below-weaken n x.serial extra j l)),
          )
          (by_value more (f v))
  where
    by_value :
        (more : Store) (r : Result RunError Scalar)
        → ((r >>= λ w. ok (set_to k (more ++ extra) s w)) >>= λ after.
            ok (leave (extra ++ cells k p q s) after))
          ≡ (r >>= λ w. ok (set_to k extra s w))
    by_value more (ok w) = ap ok (
        ap (leave (extra ++ cells k p q s))
          (append_assoc more extra (cells k (some (as_int w)) (some (flag_value w)) s))
        ∙ leave-cells k more extra s p q (some (as_int w)) (some (flag_value w)))
    by_value more (err e) = refl

-- An operand whose value does not change when one more variable is declared.
pub fresh_operand :
    (call : Call) (n : ℕ) (o : Operand) (local s : Store) (cell : Option ℤ) {z : ℤ}
    → Below n local
    → Gives call o local z
    → operand_of call o ((n, cell) ∷ local ++ s) ≡ ok z
fresh_operand call n o local s cell l g =
    Gives-append call n o ((n, cell) ∷ []) local l (omega arith, tt) g s

pub checked-Matches :
    (call : Call) (n : ℕ) (s : Store) (c : Block) (op : Arith) (l r : Operand) {x y : ℤ}
    → Below n s
    → operand_of call l ((n, some (pos 0)) ∷ s) ≡ ok x
    → operand_of call r ((n, some (pos 0)) ∷ s) ≡ ok y
    → Matches call n s
        (lowered c (Operand.variable n) (flag_of false) (n + 1))
        (result_value (arith_value op x y))
        (perform call (Block.define n (pos 0) (Block.checked op l r n Block.end)) s)
unfolding perform
checked-Matches call n s c op l r {x} {y} b hl hr =
    rw (enter-Below n (some (pos 0)) s b, hl, hr)
      (computed-Matches call n s c (arith_value op x y) false int_value (λ z q. refl) λ z. refl)

pub next_pow2-Matches :
    (call : Call) (n : ℕ) (s : Store) (c : Block) (o : Operand) {x : ℤ}
    → Below n s
    → operand_of call o ((n, some (pos 0)) ∷ s) ≡ ok x
    → Matches call n s
        (lowered c (Operand.variable n) (flag_of false) (n + 1))
        (result_value (grid_next_pow2 x))
        (perform call (Block.define n (pos 0) (Block.next_pow2 o n Block.end)) s)
unfolding perform
next_pow2-Matches call n s c o {x} b h =
    rw (enter-Below n (some (pos 0)) s b, h)
      (computed-Matches call n s c (grid_next_pow2 x) false int_value (λ z q. refl) λ z. refl)

pub not-not : (b : Bool) → not (not b) ≡ b
not-not true = refl
not-not false = refl

pub unary-Matches :
    (call : Call) (n : ℕ) (s : Store) (d c : Block) (o : UnaryNode) (x : Operand) (v : Scalar)
    → Below n s
    → operand_of call x ((n, some (pos 0)) ∷ s) ≡ ok (as_int v)
    → unary_code o x n ≡ ok c
    → Matches call n s
        (lowered d (Operand.variable n) (flag_of (is_not o)) (n + 1))
        (unary_value arith_value o v)
        (perform call c s)
unfolding unary_code unary_value perform operand_of fits_int64
unary-Matches call n s d c not_node x v b h e =
    rw (← ok-inj e, enter-Below n (some (pos 0)) s b, h)
      (computed-Matches call n s d (ok (bool_int (eqb_ℤ (as_int v) (pos 0)))) true
        (λ z. bool_value (not (truth v)))
        (λ z q. sym (ok-inj q) ∙ ap bool_int (sym (not-not (eqb_ℤ (as_int v) (pos 0))))) λ z. refl)
unary-Matches call n s d c usub_node x v b h e = rw (← ok-inj e) (
    checked-Matches call n s d (Arith.grid_operation Operation.sub) (Operand.literal (pos 0)) x b
      refl h)
unary-Matches call n s d c uadd_node x v b h e =
    rw (← ok-inj e, enter-Below n (some (pos 0)) s b, h)
      (computed-Matches call n s d (ok (as_int v)) false (λ z. int_value (as_int v))
        (λ z q. sym (ok-inj q)) λ z. refl)
unary-Matches call n s d c invert_node x v b h e = cc
