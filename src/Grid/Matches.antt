-- ===== src/Grid/Matches.antt =====
-- About grid.py, `emit`: the emitted statements against Python's evaluation with the C arithmetic.
use mathlib.Core.List.{append_assoc}
use intj.Prelude.{
  ℕ, ◌+◌, ◌≤◌, ◌<◌, ◌≡◌, refl, sym, subst, ap, ◌∙◌, String, Bool, true, false, not, none, some, [],
  ◌∷◌, ◌++◌, All-append, Result, ok, err, ◌>>=◌, bind_elim, ok-inj, arith, if◌then◌else◌, str_eq,
  Bool-cases, some-inj, inl, inr,
}
use intj.Prelude.Int.{ℤ, ltb_ℤ}
use intj.Prelude.Dict.{Dict, lookup}
use intj.Grid.Syntax.{
  uadd, usub, BinaryOperator, mult, floor_division, other_operator, Callee, named, attribute,
  other_callee, Expr, int_constant, bool_constant, load, unary, binary, call, if_expr, other,
}
use intj.Grid.Code.{
  Operation, add, sub, mul, floor, cdiv, RunError, overflow, division_by_zero, bad_dimension,
  undefined, not_an_int, not_a_bool, not_a_tensor, Operand, Code, end, declare, define, checked,
  set, ◌then◌, Store, read, write, leave, operand_value, operate, in_int64, grid_floor128, execute,
}
use intj.Grid.Emit.{
  GridKind, int_kind, bool_kind, kind_eq, Scope, Emitted, emitted, operation_of, Function2,
  resolve_callee, is_min_literal, emit,
}
use intj.Grid.Meaning.{
  Scalar, int_value, bool_value, as_int, kind_of, operator_meaning, callee_meaning,
}
use intj.Grid.Stores.{
  Below, From, From-weaken, Below-weaken, enter-Below, read_self, read-append_ok, write_self,
  write-append, leave-append, execute-then,
}

-- An error that Python code can raise here too.
abbrev pub is_raised : RunError → Bool
is_raised overflow = true
is_raised division_by_zero = true
is_raised bad_dimension = false
is_raised undefined = false
is_raised (not_an_int n) = false
is_raised (not_a_bool n) = false
is_raised (not_a_tensor n) = false

-- The outcome of emitted code that runs in `s`, against the value that Python computes: new variables
-- from `k` on, of which `r.temp` or an older one holds the value; or the same error.
abbrev pub Matches : ℕ → Store → Emitted → Result RunError Scalar → Result RunError Store → Type 0
Matches k s r (ok v) out =
    (extra : Store) × (out ≡ ok (extra ++ s))
    × From k extra
    × Below r.serial (extra ++ s)
    × (r.kind ≡ kind_of v)
    × (read r.temp (extra ++ s) ≡ ok (as_int v))
Matches k s r (err e) out = (out ≡ err e) × (is_raised e ≡ true)

-- The names in scope have their Python values in their C variables, and their kinds.
abbrev pub Agrees : Dict (ℕ × GridKind) → Dict Scalar → Store → Type 0
Agrees [] [] s = Unit
Agrees [] (e ∷ env) s = ⊥
Agrees (b ∷ bound) [] s = ⊥
Agrees ((n, (t, kind)) ∷ bound) ((m, v) ∷ env) s =
    (n ≡ m) × (kind ≡ kind_of v) × (read t s ≡ ok (as_int v)) × Agrees bound env s

pub Agrees-append :
    (bound : Dict (ℕ × GridKind)) (env : Dict Scalar) (k : ℕ) (extra s : Store)
    → Below k s
    → From k extra
    → Agrees bound env s
    → Agrees bound env (extra ++ s)
Agrees-append [] [] k extra s b f a = tt
Agrees-append [] (e ∷ env) k extra s b f a = a
Agrees-append (x ∷ bound) [] k extra s b f a = a
Agrees-append ((n, (t, kind)) ∷ bound) ((m, v) ∷ env) k extra s b f a =
    (a.0, a.1, read-append_ok k t extra s b f a.2, Agrees-append bound env k extra s b f a.3)

pub Agrees-lookup :
    (bound : Dict (ℕ × GridKind)) (env : Dict Scalar) (s : Store) (n : String) {t : ℕ}
    {kind : GridKind}
    → Agrees bound env s
    → lookup n bound ≡ some (t, kind)
    → (v : Scalar) × (lookup n env ≡ some v) × (kind ≡ kind_of v) × (read t s ≡ ok (as_int v))
unfolding lookup
Agrees-lookup [] [] s n a h = cc
Agrees-lookup [] (e ∷ env) s n a h = cc
Agrees-lookup (x ∷ bound) [] s n a h = absurd a
Agrees-lookup ((j, (t', kind')) ∷ bound) ((m, v) ∷ env) s n {t} {kind} a h =
    let e : j ≡ m = a.0 in
    elim (Bool-cases (str_eq j n)) [
      | inl hit ↦
          let p : (t', kind') ≡ (t, kind) = some-inj _ _ (rw hit at h) in
          (
            v,
            rw (← e) (rw hit refl),
            sym (ap (λ (w : ℕ × GridKind). w.1) p) ∙ a.1,
            subst (λ u. read u s ≡ ok (as_int v)) (ap (λ (w : ℕ × GridKind). w.0) p) a.2,
          )
      | inr miss ↦
          let (w, l, k, r) = Agrees-lookup bound env s n {t = t} {kind = kind} a.3 (rw miss at h) in
          (w, rw (← e) (rw miss l), k, r)
    ]

operate-raised :
    (o : Operation) (x y : ℤ) {e : RunError} → operate o x y ≡ err e → is_raised e ≡ true
unfolding operate in_int64 grid_floor128
operate-raised add x y h = ground arith
operate-raised sub x y h = ground arith
operate-raised mul x y h = ground arith
operate-raised floor x y h = ground arith
operate-raised cdiv x y h = ground arith

-- The counter never goes back.
pub emit-le_serial :
    (sc : Scope) (e : Expr) (k : ℕ) {r : Emitted} → emit sc e k ≡ ok r → k ≤ r.serial
unfolding emit
emit-le_serial sc (int_constant z) k h = ground arith
emit-le_serial sc (bool_constant b) k h = ground arith
emit-le_serial sc (load n) k h = ground arith
emit-le_serial sc (unary uadd e) k {r} h =
    bind_elim (emit sc e k) _ h λ x hx last. let b = emit-le_serial sc e k hx in ground arith
emit-le_serial sc (unary usub e) k {r} h = elim (Bool-cases (is_min_literal e)) [
  | inl lowest ↦ let last = rw lowest at h in ground arith
  | inr m ↦
      bind_elim (emit sc e k) _ (rw m at h)
        λ x hx last. let b = emit-le_serial sc e k hx in ground arith
]
emit-le_serial sc (binary o l r) k h = bind_elim (operation_of o) _ h λ op hop h1.
    bind_elim (emit sc l k) _ h1 λ x hx h2. bind_elim (emit sc r x.serial) _ h2 λ y hy last.
      let a = emit-le_serial sc l k hx in let b = emit-le_serial sc r x.serial hy in ground arith
emit-le_serial sc (call f l r) k h = bind_elim (resolve_callee sc f) _ h λ op hop h1.
    bind_elim (emit sc l k) _ h1 λ x hx h2. bind_elim (emit sc r x.serial) _ h2 λ y hy h3.
      let a = emit-le_serial sc l k hx in let b = emit-le_serial sc r x.serial hy in ground arith
emit-le_serial sc (if_expr test body orelse) k h = bind_elim (emit sc test k) _ h λ t ht h1.
    bind_elim (emit sc body (t.serial + 1)) _ h1 λ x hx h2.
      bind_elim (emit sc orelse x.serial) _ h2 λ y hy h3.
        let a = emit-le_serial sc test k ht in
        let b = emit-le_serial sc body (t.serial + 1) hx in
        let c = emit-le_serial sc orelse x.serial hy in ground arith
emit-le_serial sc (other names) k h = cc

-- The results of emitted code of one part are those of the whole.
Matches-rebase :
    (k : ℕ) (extra s : Store) (j : ℕ) (r : Emitted) (m : Result RunError Scalar)
    (out : Result RunError Store)
    → k ≤ j
    → From k extra
    → Matches j (extra ++ s) r m out
    → Matches k s r m out
Matches-rebase k extra s j r (ok v) out h f (more, e, g, b, kind, value) =
    let p : (more ++ extra) ++ s ≡ more ++ (extra ++ s) = append_assoc more extra s in
    (
      more ++ extra,
      rw p e,
      All-append _ more extra (From-weaken k j more h g) f,
      rw p b,
      kind,
      rw p value,
    )
Matches-rebase k extra s j r (err x) out h f p = p

-- Code in sequence: what the second part does where the first has given a value.
pub Matches-then :
    (k : ℕ) (s : Store) (x r : Emitted) (c : Code) (m : Result RunError Scalar)
    (f : Scalar → Result RunError Scalar)
    → k ≤ x.serial
    → Matches k s x m (execute x.code s)
    → ((v : Scalar) (extra : Store)
        → From k extra
        → Below x.serial (extra ++ s)
        → x.kind ≡ kind_of v
        → read x.temp (extra ++ s) ≡ ok (as_int v)
        → Matches x.serial (extra ++ s) r (f v) (execute c (extra ++ s)))
    → Matches k s r (m >>= f) (execute (x.code then c) s)
Matches-then k s x r c (ok v) f le (extra, e, g, b, kind, value) next =
    rw (execute-then x.code c s, e)
      (Matches-rebase k extra s x.serial r (f v) _ le g (next v extra g b kind value))
Matches-then k s x r c (err e) f le (out, raised) next =
    rw (execute-then x.code c s, out) (refl, raised)

-- `int64_t gv_k; if (intj_grid_...(l, r, &gv_k) != 0) return -1;`
pub operation-Matches :
    (k : ℕ) (s : Store) (c : Code) (o : Operation) (l r : Operand) {x y : ℤ}
    → Below k s
    → operand_value l ((k, none) ∷ s) ≡ ok x
    → operand_value r ((k, none) ∷ s) ≡ ok y
    → Matches k s
        (emitted c k int_kind (k + 1))
        (operate o x y >>= λ z. ok (int_value z))
        (execute (declare k (checked o l r k end)) s)
unfolding execute
operation-Matches k s c o l r {x} {y} b hl hr =
    rw (enter-Below k none s b, hl, hr) (by_outcome (operate o x y) refl)
  where
    by_outcome :
        (m : Result RunError ℤ)
        → operate o x y ≡ m
        → Matches k s
            (emitted c k int_kind (k + 1))
            (m >>= λ z. ok (int_value z))
            (m >>= λ z. write k z ((k, none) ∷ s) >>= λ t. ok t)
    by_outcome (ok z) e = (
      (k, some z) ∷ [],
      rw (write_self k z none s) refl,
      (omega arith, tt),
      (omega arith, Below-weaken k (k + 1) s (omega arith) b),
      refl,
      read_self k z s,
    )
    by_outcome (err e) h = (refl, operate-raised o x y h)

-- A variable that is set when it is declared.
pub define-Matches :
    (k : ℕ) (s : Store) (z : ℤ) (v : Scalar)
    → Below k s
    → z ≡ as_int v
    → Matches k s
        (emitted (define k z end) k (kind_of v) (k + 1))
        (ok v)
        (execute (define k z end) s)
unfolding execute
define-Matches k s z v b e = (
  (k, some z) ∷ [],
  rw (enter-Below k (some z) s b) refl,
  (omega arith, tt),
  (omega arith, Below-weaken k (k + 1) s (omega arith) b),
  refl,
  read_self k z s ∙ ap ok e,
)

pub operation_of-meaning :
    (o : BinaryOperator) {op : Operation} → operation_of o ≡ ok op → operator_meaning o ≡ some op
unfolding operation_of
operation_of-meaning BinaryOperator.add h = ap some (ok-inj h)
operation_of-meaning BinaryOperator.sub h = ap some (ok-inj h)
operation_of-meaning mult h = ap some (ok-inj h)
operation_of-meaning floor_division h = ap some (ok-inj h)
operation_of-meaning other_operator h = cc

pub resolve_callee-meaning :
    (sc : Scope) (f : Callee) {fn : Function2}
    → resolve_callee sc f ≡ ok fn
    → callee_meaning f ≡ some fn
unfolding resolve_callee
resolve_callee-meaning sc (named f) h = ground arith
resolve_callee-meaning sc (attribute v a) h = ground arith
resolve_callee-meaning sc (other_callee names) h = cc

-- The smaller of two, whichever is tested.
pub min_flip : (a b : ℤ) → (if ltb_ℤ a b then a else b) ≡ (if ltb_ℤ b a then b else a)
min_flip a b = ground arith

pub int_kind_lem : (v : Scalar) → int_kind ≡ kind_of v → v ≡ int_value (as_int v)
int_kind_lem (int_value z) h = refl
int_kind_lem (bool_value b) h = cc

-- A value of one of two kinds that are the same.
pub kind_eq-eq : (a b : GridKind) → not (kind_eq a b) ≡ false → a ≡ b
unfolding kind_eq
kind_eq-eq int_kind int_kind h = refl
kind_eq-eq bool_kind bool_kind h = refl
kind_eq-eq int_kind bool_kind h = cc
kind_eq-eq bool_kind int_kind h = cc

-- One side of a conditional, with its end of the block.
pub side_lem :
    (n k : ℕ) (s : Store) (x : Emitted) (m : Result RunError Scalar)
    → n + 1 ≤ k
    → Matches k ((n, none) ∷ s) x m (execute x.code ((n, none) ∷ s))
    → (execute (x.code then set n x.temp end) ((n, none) ∷ s) >>= λ after.
        execute end (leave ((n, none) ∷ s) after))
      ≡ (m >>= λ v. ok ((n, some (as_int v)) ∷ s))
unfolding execute
side_lem n k s x (ok v) le (extra, e, f, b, kind, value) =
    rw
      (
        execute-then x.code (set n x.temp end) ((n, none) ∷ s),
        e,
        value,
        write-append n (as_int v) none extra s (From-weaken (n + 1) k extra le f),
      )
      (ap ok (leave-append ((n, none) ∷ s) extra ((n, some (as_int v)) ∷ s) refl))
side_lem n k s x (err e) le (out, raised) =
    rw (execute-then x.code (set n x.temp end) ((n, none) ∷ s), out) refl

-- A value of one kind, or an error that can be raised.
abbrev pub Returns : GridKind → Result RunError Scalar → Type 0
Returns kind (ok v) = kind ≡ kind_of v
Returns kind (err e) = is_raised e ≡ true

pub Matches-Returns :
    (k : ℕ) (s : Store) (r : Emitted) (m : Result RunError Scalar) (out : Result RunError Store)
    → Matches k s r m out
    → Returns r.kind m
Matches-Returns k s r (ok v) out h = h.4
Matches-Returns k s r (err e) out h = h.1

-- The variable of a conditional.
pub conditional-Matches :
    (n j : ℕ) (s : Store) (c : Code) (kind : GridKind) (m : Result RunError Scalar)
    → Below n s
    → n < j
    → Returns kind m
    → Matches n s (emitted c n kind j) m (m >>= λ v. ok ((n, some (as_int v)) ∷ s))
conditional-Matches n j s c kind (ok v) b h k = (
  (n, some (as_int v)) ∷ [],
  refl,
  (omega arith, tt),
  (h, Below-weaken n j s (omega arith) b),
  k,
  read_self n (as_int v) s,
)
conditional-Matches n j s c kind (err e) b h k = (refl, k)
