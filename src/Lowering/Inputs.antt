-- ===== src/Lowering/Inputs.antt =====
-- About heuristic.py, `_Emitter`: the parts of an expression that read what the function is called with.
use intj.Prelude.{
  ℕ, ◌+◌, ◌≡◌, refl, sym, subst, String, true, false, Option, some, [], Result, ok, err, ◌>>=◌,
  ok-inj, arith,
}
use intj.Prelude.Int.{ℤ, pos, fits_int64}
use intj.Values.{Value}
use intj.Grid.Code.{RunError, Store, in_int64, write, not_an_int}
use intj.Grid.Emit.{bool_int}
use intj.Grid.Run.{get_elem?}
use intj.Grid.Meaning.{Scalar, int_value, bool_value, as_int}
use intj.Grid.Stores.{Below}
use intj.Lowering.Code.{Call, Operand, Block, perform, operand_of, heur_arg}
use intj.Lowering.Emit.{
  Source, arg, fixed, dep, comp, emit_input, LoweredTerm, lowered, flag_of, with_pair,
}
use intj.Lowering.Meaning.{read_scalar}
use intj.Lowering.Stores.{perform-with_pair, cells}
use intj.Lowering.Matches.{Matches, flag_value, pair-Matches}
use intj.Lowering.Supplies.{Supplied, Holds, IsLiteral}

-- A value that is at hand without a statement.
pub at_hand-Matches :
    (call : Call) (k : ℕ) (s : Store) (o f : Operand) (v : Scalar)
    → ((t : Store) → operand_of call o t ≡ ok (as_int v))
    → ((t : Store) → operand_of call f t ≡ ok (flag_value v))
    → Matches call k s (lowered Block.end o f k) (ok v) (ok s)
at_hand-Matches call k s o f v h g = ([], refl, tt, tt, h, g)

fits-in_int64 : (z : ℤ) → fits_int64 z ≡ true → in_int64 z ≡ ok z
unfolding in_int64
fits-in_int64 z h = rw h refl

writes_lem :
    (k : ℕ) (s : Store) (x y : ℤ) (p q : Option ℤ)
    → (write k x (cells k p q s) >>= λ t. write (k + 1) y t >>= λ u. ok u)
      ≡ ok (cells k (some x) (some y) s)
unfolding write
writes_lem k s x y p q = ground arith

-- `intj_heur_arg` in the two variables of a `pair`.
heur_arg-Matches :
    (call : Call) (k : ℕ) (s : Store) (c : Block) (key : String) (v : Value)
    → Matches call k s
        (lowered c (Operand.variable k) (Operand.variable (k + 1)) (k + 2))
        (read_scalar in_int64 (not_an_int key) v)
        (heur_arg key v >>= λ p. write k p.0 (cells k (some (pos 0)) (some (pos 0)) s) >>= λ t.
          write (k + 1) p.1 t >>= λ u. ok u)
unfolding read_scalar heur_arg
heur_arg-Matches call k s c key (Value.bool b) =
    rw (writes_lem k s (bool_int b) (pos 1) (some (pos 0)) (some (pos 0)))
      (pair-Matches call k (k + 2) s c (bool_value b) (omega arith))
heur_arg-Matches call k s c key (Value.int z) = by_range (in_int64 z)
  where
    by_range :
        (m : Result RunError ℤ)
        → Matches call k s
            (lowered c (Operand.variable k) (Operand.variable (k + 1)) (k + 2))
            (m >>= λ n. ok (int_value n))
            (◌>>=◌ {B = ℤ × ℤ} m (λ n. ok (n, pos 0)) >>= λ p.
              write k p.0 (cells k (some (pos 0)) (some (pos 0)) s) >>= λ t.
              write (k + 1) p.1 t >>= λ u. ok u)
    by_range (ok n) =
        rw (writes_lem k s n (pos 0) (some (pos 0)) (some (pos 0)))
          (pair-Matches call k (k + 2) s c (int_value n) (omega arith))
    by_range (err e) = refl
heur_arg-Matches call k s c key Value.null = refl
heur_arg-Matches call k s c key (Value.float x) = refl
heur_arg-Matches call k s c key (Value.str x) = refl
heur_arg-Matches call k s c key (Value.dtype x) = refl
heur_arg-Matches call k s c key (Value.jit m q h) = refl
heur_arg-Matches call k s c key (Value.object n) = refl

Holds-Matches :
    (call : Call) (k : ℕ) (s : Store) (o f : Operand) (held : Option (ℤ × ℤ)) (e : RunError)
    (v : Value)
    → Holds held v
    → ((t : Store) (x y : ℤ)
        → held ≡ some (x, y)
        → (operand_of call o t ≡ ok x) × (operand_of call f t ≡ ok y))
    → Matches call k s (lowered Block.end o f k) (read_scalar in_int64 e v) (ok s)
unfolding read_scalar
Holds-Matches call k s o f held e v (int_value z, h, fits, g) reads =
    rw (h, read_scalar, fits-in_int64 z fits)
      (at_hand-Matches call k s o f (int_value z) (λ t. (reads t z (pos 0) g).0)
        (λ t. (reads t z (pos 0) g).1))
Holds-Matches call k s o f held e v (bool_value b, h, fits, g) reads =
    rw (h, read_scalar)
      (at_hand-Matches call k s o f (bool_value b) (λ t. (reads t (bool_int b) (pos 1) g).0)
        (λ t. (reads t (bool_int b) (pos 1) g).1))

-- An input, wherever it comes from.
pub emit_input-Matches :
    (call : Call) (k : ℕ) (s : Store) (key : String) (source : Source) (v : Value) {r : LoweredTerm}
    → Below k s
    → Supplied call v source
    → emit_input key source k ≡ ok r
    → Matches call k s r (read_scalar in_int64 (not_an_int key) v) (perform call r.code s)
unfolding emit_input perform operand_of read_scalar fits_int64
emit_input-Matches call k s key (arg i) v {r} b h e =
    subst
      (λ q. Matches call k s q (read_scalar in_int64 (not_an_int key) v) (perform call q.code s))
      (ok-inj e)
      (rw (perform-with_pair call k (Block.argument i key k (k + 1) Block.end) s b, perform, h)
        (heur_arg-Matches call k s (with_pair k (Block.argument i key k (k + 1) Block.end)) key v))
emit_input-Matches call k s key (fixed w) v {r} b h e = by_value w h.1 e (sym h.0)
  where
    by_value :
        (w : Value)
        → IsLiteral w
        → emit_input key (fixed w) k ≡ ok r
        → v ≡ w
        → Matches call k s r (read_scalar in_int64 (not_an_int key) v) (perform call r.code s)
    by_value (Value.int z) fits e' q =
        subst
          (λ p.
            Matches call k s p (read_scalar in_int64 (not_an_int key) v) (perform call p.code s))
          (ok-inj e')
          (rw (q, read_scalar, fits-in_int64 z fits)
            (at_hand-Matches call k s (Operand.literal z) (flag_of false) (int_value z)
              (λ t. rw fits refl) (λ t. refl)))
    by_value (Value.bool true) fits e' q =
        subst
          (λ p.
            Matches call k s p (read_scalar in_int64 (not_an_int key) v) (perform call p.code s))
          (ok-inj e')
          (rw (q, read_scalar)
            (at_hand-Matches call k s (Operand.literal (bool_int true)) (flag_of true)
              (bool_value true) (λ t. refl) (λ t. refl)))
    by_value (Value.bool false) fits e' q =
        subst
          (λ p.
            Matches call k s p (read_scalar in_int64 (not_an_int key) v) (perform call p.code s))
          (ok-inj e')
          (rw (q, read_scalar)
            (at_hand-Matches call k s (Operand.literal (bool_int false)) (flag_of true)
              (bool_value false) (λ t. refl) (λ t. refl)))
    by_value Value.null fits e' q = cc
    by_value (Value.float x) fits e' q = cc
    by_value (Value.str x) fits e' q = cc
    by_value (Value.dtype x) fits e' q = cc
    by_value (Value.jit a c d) fits e' q = cc
    by_value (Value.object n) fits e' q = cc
emit_input-Matches call k s key (dep i) v {r} b h e =
    subst
      (λ q. Matches call k s q (read_scalar in_int64 (not_an_int key) v) (perform call q.code s))
      (ok-inj e)
      (Holds-Matches call k s (Operand.dep_value i) (Operand.dep_flag i) (get_elem? call.dep i)
        (not_an_int key) v h λ t x y g. (rw g refl, rw g refl))
emit_input-Matches call k s key (comp i) v {r} b h e =
    subst
      (λ q. Matches call k s q (read_scalar in_int64 (not_an_int key) v) (perform call q.code s))
      (ok-inj e)
      (Holds-Matches call k s (Operand.comp_value i) (Operand.comp_flag i) (get_elem? call.comp i)
        (not_an_int key) v h λ t x y g. (rw g refl, rw g refl))
