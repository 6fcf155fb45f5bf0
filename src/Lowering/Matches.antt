-- ===== src/Lowering/Matches.antt =====
-- About heuristic.py, `_Emitter`: the emitted statements against Python's evaluation.
use mathlib.Core.List.{append_assoc}
use intj.Prelude.{
  ℕ, ◌+◌, ◌≤◌, ◌≡◌, refl, ap, ◌∙◌, Bool, true, false, some, [], ◌∷◌, ◌++◌, All-append, Result, ok,
  err, ◌>>=◌, arith,
}
use intj.Prelude.Int.{ℤ, pos, fits_int64}
use intj.Grid.Code.{RunError, Store, write}
use intj.Grid.Emit.{bool_int}
use intj.Grid.Meaning.{Scalar, as_int}
use intj.Grid.Stores.{Below, From, From-weaken, Below-weaken, read_self, write_self}
use intj.Lowering.Code.{literal, variable, Block, ◌andthen◌, Call, operand_of, perform}
use intj.Lowering.Emit.{LoweredTerm, lowered, flag_of}
use intj.Lowering.Meaning.{is_boolean}
use intj.Lowering.Stores.{perform-andthen, Gives, Gives-append, cells, read_cell}

-- 1 for a bool.
abbrev pub flag_value : Scalar → ℤ
flag_value v = bool_int (is_boolean v)

-- The outcome of emitted code that runs in `s`, against the value that Python computes: new variables
-- from `k` on, with which the two expressions give the value and whether it is a bool; or the same error.
abbrev pub Matches :
    Call → ℕ → Store → LoweredTerm → Result RunError Scalar → Result RunError Store → Type 0
Matches call k s r (ok v) out =
    (extra : Store) × (out ≡ ok (extra ++ s))
    × From k extra
    × Below r.serial extra
    × Gives call r.value extra (as_int v)
    × Gives call r.flag extra (flag_value v)
Matches call k s r (err e) out = out ≡ err e

pub Below-append :
    (k n : ℕ) (extra s : Store) → k ≤ n → Below n extra → Below k s → Below n (extra ++ s)
Below-append k n extra s h b c = All-append _ extra s b (Below-weaken k n s h c)

-- The results of emitted code of one part are those of the whole.
pub Matches-rebase :
    (call : Call) (k n : ℕ) (extra s : Store) (r : LoweredTerm) (m : Result RunError Scalar)
    (out : Result RunError Store)
    → k ≤ n
    → n ≤ r.serial
    → From k extra
    → Below n extra
    → Matches call n (extra ++ s) r m out
    → Matches call k s r m out
Matches-rebase call k n extra s r (ok v) out h j f b (more, e, g, c, value, flag) = (
  more ++ extra,
  rw (append_assoc more extra s) e,
  All-append _ more extra (From-weaken k n more h g) f,
  All-append _ more extra c (Below-weaken n r.serial extra j b),
  λ t. rw (append_assoc more extra t) (value (extra ++ t)),
  λ t. rw (append_assoc more extra t) (flag (extra ++ t)),
)
Matches-rebase call k n extra s r (err x) out h j f b p = p

-- Code in sequence: what follows, where the first part has given a value. The errors are the same.
pub sequence_elim :
    (call : Call) (k : ℕ) (s : Store) (x : LoweredTerm) (c : Block) (m : Result RunError Scalar)
    (f : Scalar → Result RunError Scalar)
    (P : Result RunError Scalar → Result RunError Store → Type 0)
    → Matches call k s x m (perform call x.code s)
    → ((e : RunError) → P (err e) (err e))
    → ((v : Scalar) (extra : Store)
        → From k extra
        → Below x.serial extra
        → Gives call x.value extra (as_int v)
        → Gives call x.flag extra (flag_value v)
        → P (f v) (perform call c (extra ++ s)))
    → P (m >>= f) (perform call (x.code andthen c) s)
sequence_elim call k s x c (ok v) f P (extra, e, g, l, value, flag) stop next =
    rw (perform-andthen call x.code c s, e) (next v extra g l value flag)
sequence_elim call k s x c (err e) f P out stop next =
    rw (perform-andthen call x.code c s, out) (stop e)

-- Two operands in sequence, and what follows them.
pub operands_elim :
    (call : Call) (k : ℕ) (s : Store) (x y : LoweredTerm) (c : Block) (m n : Result RunError Scalar)
    (f : Scalar → Scalar → Result RunError Scalar)
    (P : Result RunError Scalar → Result RunError Store → Type 0)
    → k ≤ x.serial
    → x.serial ≤ y.serial
    → Below k s
    → Matches call k s x m (perform call x.code s)
    → ((t : Store) → Below x.serial t → Matches call x.serial t y n (perform call y.code t))
    → ((e : RunError) → P (err e) (err e))
    → ((v w : Scalar) (local : Store)
        → From k local
        → Below y.serial local
        → Gives call x.value local (as_int v)
        → Gives call x.flag local (flag_value v)
        → Gives call y.value local (as_int w)
        → Gives call y.flag local (flag_value w)
        → P (f v w) (perform call c (local ++ s)))
    → P (m >>= λ v. n >>= f v) (perform call (x.code andthen y.code andthen c) s)
operands_elim call k s x y c m n f P h j b mx my stop next =
    sequence_elim call k s x (y.code andthen c) m (λ v. n >>= f v) P mx stop
      λ v extra g l xv xf.
        sequence_elim call x.serial (extra ++ s) y c n (f v) P
          (my (extra ++ s) (Below-append k x.serial extra s h l b)) stop
          λ w more g2 l2 yv yf. rw (← append_assoc more extra s) (
            next v w (more ++ extra) (All-append _ more extra (From-weaken k x.serial more h g2) g)
              (Below-append x.serial y.serial more extra j l2 l)
              (Gives-append call x.serial x.value more extra l g2 xv)
              (Gives-append call x.serial x.flag more extra l g2 xf)
              (λ t. rw (append_assoc more extra t) (yv (extra ++ t)))
              (λ t. rw (append_assoc more extra t) (yf (extra ++ t))))

-- A new variable that holds a value.
pub variable-Matches :
    (call : Call) (k : ℕ) (s : Store) (c : Block) (v : Scalar) {z f : ℤ}
    → z ≡ as_int v
    → f ≡ flag_value v
    → ((t : Store) → operand_of call (literal f) t ≡ ok f)
    → Matches call k s (lowered c (variable k) (literal f) (k + 1)) (ok v) (ok ((k, some z) ∷ s))
unfolding operand_of fits_int64
variable-Matches call k s c v {z} {f} e h lit = (
  (k, some z) ∷ [],
  refl,
  (omega arith, tt),
  (omega arith, tt),
  λ t. read_self k z t ∙ ap ok e,
  λ t. lit t ∙ ap ok h,
)

-- A new variable that is 0 until a computation has given its result.
pub computed-Matches :
    (call : Call) (k : ℕ) (s : Store) (c : Block) (m : Result RunError ℤ) (b : Bool)
    (f : ℤ → Scalar)
    → ((z : ℤ) → m ≡ ok z → z ≡ as_int (f z))
    → ((z : ℤ) → bool_int b ≡ flag_value (f z))
    → Matches call k s
        (lowered c (variable k) (flag_of b) (k + 1))
        (m >>= λ z. ok (f z))
        (m >>= λ z. write k z ((k, some (pos 0)) ∷ s) >>= λ t. ok t)
unfolding operand_of fits_int64
computed-Matches call k s c (ok z) b f e h =
    rw (write_self k z (some (pos 0)) s)
      (variable-Matches call k s c (f z) (e z refl) (h z) λ t. literal_bool b)
  where
    literal_bool : (a : Bool) → operand_of call (flag_of a) [] ≡ ok (bool_int a)
    literal_bool true = refl
    literal_bool false = refl
computed-Matches call k s c (err e) b f g h = refl

-- The two variables of a `pair`.
pub pair-Matches :
    (call : Call) (k j : ℕ) (s : Store) (c : Block) (v : Scalar)
    → k + 2 ≤ j
    → Matches call k s
        (lowered c (variable k) (variable (k + 1)) j)
        (ok v)
        (ok (cells k (some (as_int v)) (some (flag_value v)) s))
unfolding operand_of
pair-Matches call k j s c v h = (
  (k + 1, some (flag_value v)) ∷ (k, some (as_int v)) ∷ [],
  refl,
  (omega arith, (omega arith, tt)),
  (omega arith, (omega arith, tt)),
  λ t. read_cell k [] t (as_int v) (some (flag_value v)) tt,
  λ t. read_self (k + 1) (flag_value v) ((k, some (as_int v)) ∷ t),
)
