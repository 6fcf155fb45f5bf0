-- ===== src/Grid/Bodies.antt =====
-- About grid.py: the evaluation of a body with the checked arithmetic, and with Python's own.
use intj.Prelude.{
  ◌≡◌, refl, sym, ◌∙◌, Bool, true, false, Option, none, some, List, [], ◌∷◌, Result, ok, err, ◌>>=◌,
  ◌>>◌, refuse, Bool-cases, inl, inr, if◌then◌else◌,
}
use intj.Prelude.Int.{ℤ, pos, eqb_ℤ, fits_int64, floor_div, ◌+ℤ◌, ◌-ℤ◌}
use intj.Prelude.Dict.{Dict, insert, lookup}
use intj.Grid.Syntax.{
  UnaryOperator, uadd, usub, Expr, int_constant, bool_constant, load, unary, binary, call, if_expr,
  other, Statement, docstring, assign, returned, returned_other, other_statement,
}
use intj.Grid.Code.{
  Operation, sub, cdiv, RunError, overflow, division_by_zero, undefined, bad_dimension, not_an_int,
  not_a_bool, not_a_tensor, operate, in_int64,
}
use intj.Grid.Emit.{Function2, min_call, cdiv_call}
use intj.Grid.Meaning.{
  Scalar, int_value, as_int, Arithmetic, python, operator_meaning, callee_meaning, operator_value,
  call_value, unary_value, evaluate,
}
use intj.Grid.Run.{evaluate_all, dimensions, body_value, body_scalars}
use intj.Grid.Stores.{bind_assoc, bind_congr}
use intj.Grid.Exact.{Close, Close-self, Close-bind, operate-python}

module _ (ar exact : Operation → ℤ → ℤ → Result RunError ℤ)
    (near : (o : Operation) (a b : ℤ) → Close (ar o a b) (exact o a b)) where
  integer-Close :
      (o : Operation) (a b : ℤ)
      → Close (ar o a b >>= λ z. ok (int_value z)) (exact o a b >>= λ z. ok (int_value z))
  integer-Close o a b = Close-bind (ar o a b) (exact o a b) _ _ (near o a b) (λ z. refl)

  evaluate-Close : (env : Dict Scalar) (e : Expr) → Close (evaluate ar env e) (evaluate exact env e)
  unfolding evaluate unary_value operator_value call_value
  evaluate-Close env (int_constant z) = refl
  evaluate-Close env (bool_constant b) = refl
  evaluate-Close env (load n) = Close-self (evaluate ar env (load n))
  evaluate-Close env (unary o e) =
      Close-bind (evaluate ar env e) (evaluate exact env e) (unary_value ar o) (unary_value exact o)
        (evaluate-Close env e) (sign o)
    where
      sign : (o : UnaryOperator) (v : Scalar) → Close (unary_value ar o v) (unary_value exact o v)
      sign uadd v = refl
      sign usub v = integer-Close sub (pos 0) (as_int v)
  evaluate-Close env (binary o l r) =
      Close-bind (evaluate ar env l) (evaluate exact env l) _ _ (evaluate-Close env l) λ x.
        Close-bind (evaluate ar env r) (evaluate exact env r) _ _ (evaluate-Close env r)
          λ y. operator (operator_meaning o) x y
    where
      operator :
          (o : Option Operation) (x y : Scalar)
          → Close (operator_value ar o x y) (operator_value exact o x y)
      operator none x y = refl
      operator (some o) x y = integer-Close o (as_int x) (as_int y)
  evaluate-Close env (call f l r) =
      Close-bind (evaluate ar env l) (evaluate exact env l) _ _ (evaluate-Close env l) λ x.
        Close-bind (evaluate ar env r) (evaluate exact env r) _ _ (evaluate-Close env r)
          λ y. function (callee_meaning f) x y
    where
      function :
          (f : Option Function2) (x y : Scalar)
          → Close (call_value ar f x y) (call_value exact f x y)
      function none x y = refl
      function (some min_call) x y = refl
      function (some cdiv_call) x y = integer-Close cdiv (as_int x) (as_int y)
  evaluate-Close env (if_expr test body orelse) =
      Close-bind (evaluate ar env test) (evaluate exact env test) _ _ (evaluate-Close env test)
        λ t. side (eqb_ℤ (as_int t) (pos 0)) (evaluate-Close env body) (evaluate-Close env orelse)
    where
      side :
          (b : Bool)
          → Close (evaluate ar env body) (evaluate exact env body)
          → Close (evaluate ar env orelse) (evaluate exact env orelse)
          → Close
              (if b then evaluate ar env orelse else evaluate ar env body)
              (if b then evaluate exact env orelse else evaluate exact env body)
      side true taken otherwise = otherwise
      side false taken otherwise = taken
  evaluate-Close env (other names) = refl

  evaluate_all-Close :
      (env : Dict Scalar) (es : List Expr)
      → Close (evaluate_all ar env es) (evaluate_all exact env es)
  unfolding evaluate_all
  evaluate_all-Close env [] = refl
  evaluate_all-Close env (e ∷ es) =
      Close-bind (evaluate ar env e) (evaluate exact env e) _ _ (evaluate-Close env e) λ v.
        Close-bind (evaluate_all ar env es) (evaluate_all exact env es) _ _
          (evaluate_all-Close env es) (λ vs. refl)

  pub body-Close :
      (env : Dict Scalar) (statements : List Statement)
      → Close (body_scalars ar env statements) (body_scalars exact env statements)
  unfolding body_scalars
  body-Close env (assign target e ∷ rest) =
      Close-bind (evaluate ar env e) (evaluate exact env e) _ _ (evaluate-Close env e)
        λ v. body-Close (insert target v env) rest
  body-Close env (returned es ∷ rest) = evaluate_all-Close env es
  body-Close env (returned_other names ∷ rest) = refl
  body-Close env (docstring ∷ rest) = body-Close env rest
  body-Close env (other_statement names ∷ rest) = refl
  body-Close env [] = refl

-- What an evaluator does with the result of the body.
pub body_value-scalars :
    (ar : Arithmetic) (env : Dict Scalar) (statements : List Statement)
    → body_value ar env statements ≡ (body_scalars ar env statements >>= dimensions)
unfolding body_value body_scalars
body_value-scalars ar env (assign target e ∷ rest) =
    bind_congr (evaluate ar env e) _
      (λ v. body_scalars ar (insert target v env) rest >>= dimensions)
      (λ v. body_value-scalars ar (insert target v env) rest)
    ∙ sym (
        bind_assoc (evaluate ar env e) (λ v. body_scalars ar (insert target v env) rest) dimensions)
body_value-scalars ar env (returned es ∷ rest) = refl
body_value-scalars ar env (returned_other names ∷ rest) = refl
body_value-scalars ar env (docstring ∷ rest) = body_value-scalars ar env rest
body_value-scalars ar env (other_statement names ∷ rest) = refl
body_value-scalars ar env [] = refl

-- The evaluation of a body raises no error of an input or of an output.
abbrev pub Computes {ℓ} : {A : Type ℓ} → Result RunError A → Type 0
Computes (ok v) = Unit
Computes (err overflow) = Unit
Computes (err division_by_zero) = Unit
Computes (err undefined) = Unit
Computes (err bad_dimension) = ⊥
Computes (err (not_an_int n)) = ⊥
Computes (err (not_a_bool n)) = ⊥
Computes (err (not_a_tensor n)) = ⊥

Computes-bind {ℓ} :
    {A B : Type ℓ} (m : Result RunError A) (f : A → Result RunError B)
    → Computes m
    → ((v : A) → Computes (f v))
    → Computes (m >>= f)
Computes-bind (ok v) f h k = k v
Computes-bind (err overflow) f h k = tt
Computes-bind (err division_by_zero) f h k = tt
Computes-bind (err undefined) f h k = tt
Computes-bind (err bad_dimension) f h k = h
Computes-bind (err (not_an_int n)) f h k = h
Computes-bind (err (not_a_bool n)) f h k = h
Computes-bind (err (not_a_tensor n)) f h k = h

in_int64-Computes : (z : ℤ) → Computes (in_int64 z)
unfolding in_int64
in_int64-Computes z = elim (Bool-cases (fits_int64 z)) [ inl e ↦ rw e tt | inr e ↦ rw e tt ]

operate-Computes : (o : Operation) (a b : ℤ) → Computes (operate o a b)
unfolding python
operate-Computes o a b =
    rw (operate-python o a b)
      (Computes-bind (python o a b) in_int64 (by_operation o) in_int64-Computes)
  where
    divided : (t : Bool) (z : ℤ) → Computes {A = ℤ} (refuse t division_by_zero >> ok z)
    divided true z = tt
    divided false z = tt

    by_operation : (o : Operation) → Computes (python o a b)
    by_operation Operation.add = tt
    by_operation sub = tt
    by_operation Operation.mul = tt
    by_operation Operation.floor = divided (eqb_ℤ b (pos 0)) (floor_div a b)
    by_operation cdiv = divided (eqb_ℤ b (pos 0)) (floor_div (a +ℤ b -ℤ pos 1) b)

integer-Computes : (o : Operation) (a b : ℤ) → Computes (operate o a b >>= λ z. ok (int_value z))
integer-Computes o a b =
    Computes-bind (operate o a b) (λ z. ok (int_value z)) (operate-Computes o a b) λ z. tt

evaluate-Computes : (env : Dict Scalar) (e : Expr) → Computes (evaluate operate env e)
unfolding evaluate unary_value operator_value call_value
evaluate-Computes env (int_constant z) = tt
evaluate-Computes env (bool_constant b) = tt
evaluate-Computes env (load n) = found (lookup n env)
  where
    found :
        (m : Option Scalar)
        → Computes {A = Scalar} (elim m [ none ↦ err undefined | some v ↦ ok v ])
    found none = tt
    found (some v) = tt
evaluate-Computes env (unary o e) =
    Computes-bind (evaluate operate env e) (unary_value operate o) (evaluate-Computes env e)
      (sign o)
  where
    sign : (o : UnaryOperator) (v : Scalar) → Computes (unary_value operate o v)
    sign uadd v = tt
    sign usub v = integer-Computes sub (pos 0) (as_int v)
evaluate-Computes env (binary o l r) =
    Computes-bind (evaluate operate env l) _ (evaluate-Computes env l) λ x.
      Computes-bind (evaluate operate env r) _ (evaluate-Computes env r)
        λ y. operator (operator_meaning o) x y
  where
    operator : (o : Option Operation) (x y : Scalar) → Computes (operator_value operate o x y)
    operator none x y = tt
    operator (some o) x y = integer-Computes o (as_int x) (as_int y)
evaluate-Computes env (call f l r) =
    Computes-bind (evaluate operate env l) _ (evaluate-Computes env l) λ x.
      Computes-bind (evaluate operate env r) _ (evaluate-Computes env r)
        λ y. function (callee_meaning f) x y
  where
    function : (f : Option Function2) (x y : Scalar) → Computes (call_value operate f x y)
    function none x y = tt
    function (some min_call) x y = tt
    function (some cdiv_call) x y = integer-Computes cdiv (as_int x) (as_int y)
evaluate-Computes env (if_expr test body orelse) =
    Computes-bind (evaluate operate env test) _ (evaluate-Computes env test) λ t.
      side (eqb_ℤ (as_int t) (pos 0)) (evaluate-Computes env body) (evaluate-Computes env orelse)
  where
    side :
        (b : Bool)
        → Computes (evaluate operate env body)
        → Computes (evaluate operate env orelse)
        → Computes (if b then evaluate operate env orelse else evaluate operate env body)
    side true taken otherwise = otherwise
    side false taken otherwise = taken
evaluate-Computes env (other names) = tt

evaluate_all-Computes :
    (env : Dict Scalar) (es : List Expr) → Computes (evaluate_all operate env es)
unfolding evaluate_all
evaluate_all-Computes env [] = tt
evaluate_all-Computes env (e ∷ es) =
    Computes-bind (evaluate operate env e) _ (evaluate-Computes env e)
      λ v. Computes-bind (evaluate_all operate env es) _ (evaluate_all-Computes env es) λ vs. tt

pub body-Computes :
    (env : Dict Scalar) (statements : List Statement)
    → Computes (body_scalars operate env statements)
unfolding body_scalars
body-Computes env (assign target e ∷ rest) =
    Computes-bind (evaluate operate env e) _ (evaluate-Computes env e)
      λ v. body-Computes (insert target v env) rest
body-Computes env (returned es ∷ rest) = evaluate_all-Computes env es
body-Computes env (returned_other names ∷ rest) = tt
body-Computes env (docstring ∷ rest) = body-Computes env rest
body-Computes env (other_statement names ∷ rest) = tt
body-Computes env [] = tt
