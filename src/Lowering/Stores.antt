-- ===== src/Lowering/Stores.antt =====
-- About the C variables of a lowered heuristic.
use mathlib.Core.List.{append_assoc}
use intj.Prelude.{
  ℕ, ◌+◌, ◌≤◌, ◌<◌, ◌≡◌, refl, ◌∙◌, sym, Bool, Option, some, [], ◌∷◌, ◌++◌, All-append,
  length-append, ok, ◌>>=◌, arith, if◌then◌else◌,
}
use intj.Prelude.Int.{ℤ, pos}
use intj.Grid.Code.{Store, read, write, leave}
use intj.Grid.Stores.{
  Below, From, From-weaken, Below-weaken, enter-Below, read-lt, read-append, write-append,
  leave-append, bind_assoc,
}
use intj.Lowering.Code.{
  Operand, literal, variable, dep_value, dep_flag, comp_value, comp_flag, Block, end, define, set,
  checked, next_pow2, argument, logical_not, compare, test_none, tensor, dtype, Test, branch,
  ◌andthen◌, Call, operand_of, test_value, perform,
}
use intj.Lowering.Emit.{set_pair, with_pair}

pub perform-andthen :
    (call : Call) (c k : Block) (s : Store)
    → perform call (c andthen k) s ≡ (perform call c s >>= perform call k)
unfolding perform ◌andthen◌
perform-andthen call end k s = refl
perform-andthen call (define v z c) k s = simp (bind_assoc, perform-andthen call c k)
perform-andthen call (set v o c) k s = simp (bind_assoc, perform-andthen call c k)
perform-andthen call (checked a l r v c) k s = simp (bind_assoc, perform-andthen call c k)
perform-andthen call (next_pow2 o v c) k s = simp (bind_assoc, perform-andthen call c k)
perform-andthen call (argument i n v b c) k s = simp (bind_assoc, perform-andthen call c k)
perform-andthen call (logical_not o v c) k s = simp (bind_assoc, perform-andthen call c k)
perform-andthen call (compare o l r v c) k s = simp (bind_assoc, perform-andthen call c k)
perform-andthen call (test_none n t v c) k s = simp (bind_assoc, perform-andthen call c k)
perform-andthen call (tensor i n m z v c) k s = simp (bind_assoc, perform-andthen call c k)
perform-andthen call (dtype i n v c) k s = simp (bind_assoc, perform-andthen call c k)
perform-andthen call (branch t y n c) k s = simp (bind_assoc, perform-andthen call c k)

-- An expression whose value is that of the variables in `extra`, whatever else is declared.
abbrev pub Gives : Call → Operand → Store → ℤ → Type 0
Gives call o extra z = (t : Store) → operand_of call o (extra ++ t) ≡ ok z

-- Variables declared later hide nothing.
pub Gives-append :
    (call : Call) (n : ℕ) (o : Operand) (more extra : Store) {z : ℤ}
    → Below n extra
    → From n more
    → Gives call o extra z
    → Gives call o (more ++ extra) z
unfolding operand_of
Gives-append call n (literal x) more extra b f g t = g t
Gives-append call n (variable v) more extra b f g t =
    let h : v < n = read-lt n v (extra ++ []) (All-append _ extra [] b tt) (g []) in
    rw (append_assoc more extra t) (read-append n v more (extra ++ t) f h ∙ g t)
Gives-append call n (dep_value i) more extra b f g t = g t
Gives-append call n (dep_flag i) more extra b f g t = g t
Gives-append call n (comp_value i) more extra b f g t = g t
Gives-append call n (comp_flag i) more extra b f g t = g t

-- The variables of `pair` in front of others.
abbrev pub cells : ℕ → Option ℤ → Option ℤ → Store → Store
cells k v b s = (k + 1, b) ∷ (k, v) ∷ s

pub perform-with_pair :
    (call : Call) (k : ℕ) (c : Block) (s : Store)
    → Below k s
    → perform call (with_pair k c) s ≡ perform call c (cells k (some (pos 0)) (some (pos 0)) s)
unfolding perform
perform-with_pair call k c s b =
    rw
      (
        enter-Below k (some (pos 0)) s b,
        enter-Below (k + 1) (some (pos 0)) ((k, some (pos 0)) ∷ s)
            (omega arith, Below-weaken k (k + 1) s (omega arith) b),
      )
      refl

pub perform-set_pair :
    (call : Call) (k : ℕ) (o f : Operand) (c : Block) (extra s : Store) (v b : Option ℤ) {x y : ℤ}
    → From (k + 2) extra
    → operand_of call o (extra ++ cells k v b s) ≡ ok x
    → operand_of call f (extra ++ cells k (some x) b s) ≡ ok y
    → perform call (set_pair k o f c) (extra ++ cells k v b s)
      ≡ perform call c (extra ++ cells k (some x) (some y) s)
unfolding perform
perform-set_pair call k o f c extra s v b {x} {y} l go gf =
    let e : write k x (extra ++ cells k v b s) ≡ ok (extra ++ cells k (some x) b s) =
      rw
        (
          ← append_assoc extra ((k + 1, b) ∷ []) ((k, v) ∷ s),
          ← append_assoc extra ((k + 1, b) ∷ []) ((k, some x) ∷ s),
        )
        (write-append k x v (extra ++ (k + 1, b) ∷ []) s (
          All-append _ extra ((k + 1, b) ∷ []) (From-weaken (k + 1) (k + 2) extra (omega arith) l)
            (omega arith, tt))) in
    rw
      (
        go,
        e,
        gf,
        write-append (k + 1) y b extra ((k, some x) ∷ s)
            (From-weaken (k + 1 + 1) (k + 2) extra (omega arith) l),
      )
      refl

pub read_cell :
    (k : ℕ) (extra s : Store) (x : ℤ) (b : Option ℤ)
    → From (k + 2) extra
    → read k (extra ++ cells k (some x) b s) ≡ ok x
unfolding read
read_cell k extra s x b l =
    read-append (k + 2) k extra (cells k (some x) b s) l (omega arith) ∙ ground arith

-- The end of a block that has only set the variables of a `pair` outside of it.
pub leave-cells :
    (k : ℕ) (more extra s : Store) (v b w c : Option ℤ)
    → leave (extra ++ cells k v b s) (more ++ (extra ++ cells k w c s)) ≡ extra ++ cells k w c s
leave-cells k more extra s v b w c =
    leave-append (extra ++ cells k v b s) more (extra ++ cells k w c s)
      (length-append {0} extra (cells k v b s) ∙ sym (length-append {0} extra (cells k w c s)))

pub Below-cells :
    (k n : ℕ) (extra s : Store) (v b : Option ℤ)
    → Below k s
    → k + 2 ≤ n
    → Below n extra
    → Below n (extra ++ cells k v b s)
Below-cells k n extra s v b l h e =
    All-append _ extra (cells k v b s) e
      (omega arith, (omega arith, Below-weaken k n s (omega arith) l))

pub perform-branch :
    (call : Call) (test : Test) (body orelse : Block) (s : Store) {b : Bool}
    → test_value call test s ≡ ok b
    → perform call (branch test body orelse end) s
      ≡ ((if b then perform call body s else perform call orelse s) >>= λ after. ok (leave s after))
unfolding perform
perform-branch call test body orelse s h = rw h refl
