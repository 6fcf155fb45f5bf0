-- ===== src/Lowering/Choices.antt =====
-- About heuristic.py, `_Emitter`: comparisons, `min` and `max`, conditionals, and `and` and `or`.
use mathlib.Core.List.{append_assoc}
use intj.Prelude.{
  ℕ, ◌+◌, ◌≤◌, ◌≡◌, refl, sym, ap, ◌∙◌, String, Bool, true, false, Option, some, [], ◌∷◌, ◌++◌,
  All-append, Result, ok, err, ◌>>=◌, arith, if◌then◌else◌, str_eq,
}
use intj.Prelude.Int.{ℤ, pos, ltb_ℤ, fits_int64}
use intj.Grid.Code.{RunError, Store, leave, read}
use intj.Grid.Emit.{bool_int}
use intj.Grid.Meaning.{Scalar, bool_value, as_int}
use intj.Grid.Stores.{
  Below, From, From-weaken, Below-weaken, enter-Below, read_self, read-append, write-append,
}
use intj.Lowering.Code.{
  Call, Operand, Block, Comparison, Test, compare_value, perform, operand_of, test_value,
}
use intj.Lowering.Emit.{
  LoweredTerm, lowered, flag_of, with_pair, set_pair, compared, beats, Emitter, extreme_of,
}
use intj.Lowering.Meaning.{compared_values, extreme}
use intj.Lowering.Stores.{
  cells, perform-with_pair, perform-set_pair, perform-branch, leave-cells, read_cell,
}
use intj.Lowering.Matches.{Matches, flag_value, operands_elim, pair-Matches}
use intj.Lowering.Branches.{set_to}

-- The variable that was declared before the operands.
outer-Matches :
    (call : Call) (k j : ℕ) (local s : Store) (c : Block) (b : Bool)
    → From (k + 1) local
    → Below j local
    → k + 1 ≤ j
    → Matches call k s
        (lowered c (Operand.variable k) (flag_of true) j)
        (ok (bool_value b))
        (ok (local ++ (k, some (bool_int b)) ∷ s))
unfolding operand_of read fits_int64
outer-Matches call k j local s c b f l h = (
  local ++ (k, some (bool_int b)) ∷ [],
  ap ok (sym (append_assoc local ((k, some (bool_int b)) ∷ []) s)),
  All-append _ local ((k, some (bool_int b)) ∷ []) (From-weaken k (k + 1) local (omega arith) f)
      (omega arith, tt),
  All-append _ local ((k, some (bool_int b)) ∷ []) l (omega arith, tt),
  λ t. rw (append_assoc local ((k, some (bool_int b)) ∷ []) t) (
      read-append (k + 1) k local ((k, some (bool_int b)) ∷ t) f (omega arith)
      ∙ read_self k (bool_int b) t),
  λ t. refl,
)

-- A comparison of two operands.
pub compared-Matches :
    (call : Call) (k : ℕ) (s : Store) (c : Comparison) (x y : LoweredTerm)
    (m n : Result RunError Scalar)
    → k + 1 ≤ x.serial
    → x.serial ≤ y.serial
    → Below k s
    → ((t : Store) → Below (k + 1) t → Matches call (k + 1) t x m (perform call x.code t))
    → ((t : Store) → Below x.serial t → Matches call x.serial t y n (perform call y.code t))
    → Matches call k s
        (compared c k x y)
        (m >>= λ v. n >>= λ w. ok (compared_values c v w))
        (perform call (compared c k x y).code s)
unfolding perform
compared-Matches call k s c x y m n h j b mx my =
    let inside : Store = (k, some (pos 0)) ∷ s in
    let b' : Below (k + 1) inside = (omega arith, Below-weaken k (k + 1) s (omega arith) b) in
    rw (enter-Below k (some (pos 0)) s b) (
      operands_elim call (k + 1) inside x y (Block.compare c x.value y.value k Block.end) m n
        (λ v w. ok (compared_values c v w)) (Matches call k s (compared c k x y)) h j b'
        (mx inside b') my (λ e. refl)
        λ v w local g l xv xf yv yf.
          rw
            (
              xv inside,
              yv inside,
              write-append k (bool_int (compare_value c (as_int v) (as_int w))) (some (pos 0)) local
                  s g,
            )
            (outer-Matches call k y.serial local s (compared c k x y).code
              (compare_value c (as_int v) (as_int w)) g l (omega arith)))

pub extreme_of-min :
    (em : Emitter) (f : String) {b : Bool} → extreme_of em f ≡ ok b → str_eq f "min" ≡ b
unfolding extreme_of
extreme_of-min em f h = ground arith

-- The value that an expression gives in the two new variables.
kept-Matches :
    (call : Call) (n : ℕ) (s : Store) (c k : Block) (o f : Operand) (v : Scalar)
    → operand_of call o (cells n (some (pos 0)) (some (pos 0)) s) ≡ ok (as_int v)
    → operand_of call f (cells n (some (as_int v)) (some (pos 0)) s) ≡ ok (flag_value v)
    → Matches call n s (lowered c (Operand.variable n) (Operand.variable (n + 1)) (n + 2)) (ok v) (
        perform call (set_pair n o f Block.end) (cells n (some (pos 0)) (some (pos 0)) s)
        >>= λ after. ok (leave (cells n (some (pos 0)) (some (pos 0)) s) after))
unfolding perform
kept-Matches call n s c k o f v h g =
    rw
      (
        perform-set_pair call n o f Block.end [] s (some (pos 0)) (some (pos 0)) {x = as_int v}
            {y = flag_value v} tt h g,
        perform,
        leave-cells n [] [] s (some (pos 0)) (some (pos 0)) (some (as_int v)) (some (flag_value v)),
      )
      (pair-Matches call n (n + 2) s c v (omega arith))

pub extreme-Matches :
    (call : Call) (n : ℕ) (s : Store) (c : Block) (f : String) (is_min : Bool)
    (xv xf yv yf : Operand) (v w : Scalar)
    → Below n s
    → str_eq f "min" ≡ is_min
    → ((a b : Option ℤ) → operand_of call xv (cells n a b s) ≡ ok (as_int v))
    → ((a b : Option ℤ) → operand_of call xf (cells n a b s) ≡ ok (flag_value v))
    → ((a b : Option ℤ) → operand_of call yv (cells n a b s) ≡ ok (as_int w))
    → ((a b : Option ℤ) → operand_of call yf (cells n a b s) ≡ ok (flag_value w))
    → Matches call n s
        (lowered c (Operand.variable n) (Operand.variable (n + 1)) (n + 2))
        (extreme f v w)
        (perform call
          (with_pair n (
            Block.branch
              (beats is_min yv xv)
              (set_pair n yv yf Block.end)
              (set_pair n xv xf Block.end)
              Block.end))
          s)
unfolding extreme test_value
extreme-Matches call n s c f is_min xv xf yv yf v w b e hxv hxf hyv hyf =
    rw
      (
        e,
        perform-with_pair call n
            (Block.branch (beats is_min yv xv) (set_pair n yv yf Block.end)
              (set_pair n xv xf Block.end) Block.end)
            s b,
      )
      (by_builtin is_min)
  where
    inside : Store
    inside = cells n (some (pos 0)) (some (pos 0)) s

    by_test :
        (t : Bool) (test : Test)
        → test_value call test inside ≡ ok t
        → Matches call n s
            (lowered c (Operand.variable n) (Operand.variable (n + 1)) (n + 2))
            (ok (if t then w else v))
            (perform call
              (Block.branch test
                (set_pair n yv yf Block.end)
                (set_pair n xv xf Block.end)
                Block.end)
              inside)
    by_test true test h =
        rw
          (perform-branch call test (set_pair n yv yf Block.end) (set_pair n xv xf Block.end) inside
            h)
          (kept-Matches call n s c Block.end yv yf w (hyv (some (pos 0)) (some (pos 0)))
            (hyf (some (as_int w)) (some (pos 0))))
    by_test false test h =
        rw
          (perform-branch call test (set_pair n yv yf Block.end) (set_pair n xv xf Block.end) inside
            h)
          (kept-Matches call n s c Block.end xv xf v (hxv (some (pos 0)) (some (pos 0)))
            (hxf (some (as_int v)) (some (pos 0))))

    by_builtin :
        (is_min : Bool)
        → Matches call n s
            (lowered c (Operand.variable n) (Operand.variable (n + 1)) (n + 2))
            (if is_min
              then ok (if ltb_ℤ (as_int w) (as_int v) then w else v)
              else ok (if ltb_ℤ (as_int v) (as_int w) then w else v))
            (perform call
              (Block.branch
                (beats is_min yv xv)
                (set_pair n yv yf Block.end)
                (set_pair n xv xf Block.end)
                Block.end)
              inside)
    by_builtin true =
        by_test (ltb_ℤ (as_int w) (as_int v)) (Test.less yv xv)
          (rw (hyv (some (pos 0)) (some (pos 0)), hxv (some (pos 0)) (some (pos 0))) refl)
    by_builtin false =
        by_test (ltb_ℤ (as_int v) (as_int w)) (Test.less xv yv)
          (rw (hyv (some (pos 0)) (some (pos 0)), hxv (some (pos 0)) (some (pos 0))) refl)

-- The pair that was declared before everything else.
pub outer_pair-Matches :
    (call : Call) (k j : ℕ) (local s : Store) (c : Block) (m : Result RunError Scalar)
    → From (k + 2) local
    → Below j local
    → k + 2 ≤ j
    → Matches call k s
        (lowered c (Operand.variable k) (Operand.variable (k + 1)) j)
        m
        (m >>= λ w. ok (set_to k local s w))
unfolding operand_of
outer_pair-Matches call k j local s c (ok w) f l h =
    let own : Store = cells k (some (as_int w)) (some (flag_value w)) [] in
    (
      local ++ own,
      ap ok (sym (append_assoc local own s)),
      All-append _ local own (From-weaken k (k + 2) local (omega arith) f)
          (omega arith, (omega arith, tt)),
      All-append _ local own l (omega arith, (omega arith, tt)),
      λ t. rw (append_assoc local own t) (read_cell k local t (as_int w) (some (flag_value w)) f),
      λ t. rw (append_assoc local own t) (
          read-append (k + 2) (k + 1) local (cells k (some (as_int w)) (some (flag_value w)) t) f
            (omega arith)
          ∙ read_self (k + 1) (flag_value w) ((k, some (as_int w)) ∷ t)),
    )
outer_pair-Matches call k j local s c (err e) f l h = refl
