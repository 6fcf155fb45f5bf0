-- ===== src/Heuristics/Reads.antt =====
-- About heuristic.py, `parse_heuristic`: what a parsed expression reads of its argument, under any
-- meaning of its operations.
use mathlib.Core.Path.{ap₂}
use intj.Prelude.{
  ◌≤◌, ◌≡◌, refl, subst, String, ap, Bool, true, false, not, List, [], ◌∷◌, All, length, ok,
  bind_elim, refuse-eq-ok, arith, str_eq, eq_iff, ◌==◌, Bool-cases, inl, inr, if◌then◌else◌,
}
use intj.Prelude.Names.{contains}
use intj.Heuristics.{
  read_node, takes_more, located, Expr, ident, text, index, subscript, other, Exprs, nil, cons,
  not_a_function, free_variables, not_one_argument, Function, Heuristic, unwrapped, literal,
  is_name, subscript_key, parse_heuristic,
}
use intj.Heuristics.Walk.{total, total_all}
use intj.Heuristics.Keys.{
  one_if, use_at, key_at, bad_key, bad_at, keys-le-uses, keys-le-uses_all, read_node-counts,
}

-- A meaning of the expressions: the values, and what a name, a text and each other node give. The
-- function's argument is a map from names to values, and `whole` is that map as a value.
pub record Meaning (V : Type 0) : Type 0 where
  pub global : String → V
  pub constant : String → V
  pub apply : String → List V → V
  pub whole : (String → V) → V

module _ {V : Type 0} (m : Meaning V) (arg : String) where
  -- What the function's argument gives under a subscript.
  abbrev pub subscript_of : (String → V) → Expr → V
  subscript_of env (text k) = env k
  subscript_of env _ = m.whole env

  unfoldable mutual
    pub evaluate : (String → V) → Expr → V
    evaluate env (ident id) = if str_eq id arg then m.whole env else m.global id
    evaluate env (text s) = m.constant s
    evaluate env (index e) = evaluate env e
    evaluate env (subscript value slice) =
        let parts = evaluate env value ∷ evaluate env slice ∷ [] in
        if is_name arg value then subscript_of env (unwrapped slice) else m.apply "Subscript" parts
    evaluate env (other tag es) = m.apply tag (evaluate_all env es)

    pub evaluate_all : (String → V) → Exprs → List V
    evaluate_all env nil = []
    evaluate_all env (cons e es) = evaluate env e ∷ evaluate_all env es

agree :
    {V : Type 0} (f g : String → V) (inputs : List String) (k : String)
    → All (λ n. f n ≡ g n) inputs
    → contains inputs k ≡ true
    → f k ≡ g k
unfolding contains
agree f g [] k h there = cc
agree f g (n ∷ ns) k h there = elim (Bool-cases (str_eq n k)) [
  | inl hit ↦ subst (λ n. f n ≡ g n) ((eq_iff n k).0 hit) h.0
  | inr miss ↦ agree f g ns k h.1 (rw miss at there)
]

not-zero : (b : Bool) → one_if (not b) ≡ 0 → b ≡ true
not-zero true h = refl
not-zero false h = absurd (omega (arith, h))

module _ {V : Type 0} (m : Meaning V) (arg : String) (inputs : List String) (f g : String → V)
    (same : All (λ n. f n ≡ g n) inputs) where
  subscript_of-eq :
      (e : Expr) → bad_key inputs (literal e) ≡ 0 → subscript_of m arg f e ≡ subscript_of m arg g e
  subscript_of-eq (text k) h = agree f g inputs k same (not-zero (contains inputs k) h)
  subscript_of-eq (ident id) h = absurd (omega (arith, h))
  subscript_of-eq (index e) h = absurd (omega (arith, h))
  subscript_of-eq (subscript value slice) h = absurd (omega (arith, h))
  subscript_of-eq (other tag es) h = absurd (omega (arith, h))

  -- Where every mention is a subscript by a name of the list, only those names matter.
  mutual
    unfolding evaluate evaluate_all total total_all subscript_key

    evaluate-eq :
        (e : Expr)
        → total (use_at arg) e ≤ total (key_at arg) e
        → total (bad_at inputs arg) e ≡ 0
        → evaluate m arg f e ≡ evaluate m arg g e
    evaluate-eq (ident id) no_more good = elim (Bool-cases (str_eq id arg)) [
      | inl hit ↦ absurd (omega (arith, no_more, ap one_if hit))
      | inr miss ↦ rw miss
    ]
    evaluate-eq (text s) no_more good = refl
    evaluate-eq (index e) no_more good =
        evaluate-eq e (omega (arith, no_more)) (omega (arith, good))
    evaluate-eq (other tag es) no_more good =
        ap (m.apply tag) (evaluate_all-eq es (omega (arith, no_more)) (omega (arith, good)))
    evaluate-eq (subscript value slice) no_more good = elim (Bool-cases (is_name arg value)) [
      | inl hit ↦
          let literal_key : bad_at inputs arg (subscript value slice) ≡ 0 = omega (arith, good) in
          rw hit (subscript_of-eq (unwrapped slice) (rw hit at literal_key))
      | inr miss ↦ rw miss (
          ap₂ (λ (v w : V). m.apply "Subscript" (v ∷ w ∷ []))
            (evaluate-eq value
              (omega
                (arith, no_more, ap one_if miss, keys-le-uses arg value, keys-le-uses arg slice))
              (omega (arith, good)))
            (evaluate-eq slice
              (omega
                (arith, no_more, ap one_if miss, keys-le-uses arg value, keys-le-uses arg slice))
              (omega (arith, good))))
    ]

    evaluate_all-eq :
        (es : Exprs)
        → total_all (use_at arg) es ≤ total_all (key_at arg) es
        → total_all (bad_at inputs arg) es ≡ 0
        → evaluate_all m arg f es ≡ evaluate_all m arg g es
    evaluate_all-eq nil no_more good = refl
    evaluate_all-eq (cons e es) no_more good =
        ap₂ (λ (v : V) (vs : List V). v ∷ vs)
          (evaluate-eq e (omega (arith, no_more, keys-le-uses arg e, keys-le-uses_all arg es))
            (omega (arith, good)))
          (evaluate_all-eq es (omega (arith, no_more, keys-le-uses arg e, keys-le-uses_all arg es))
            (omega (arith, good)))

-- A heuristic that `parse_heuristic` accepts gives the same on any two arguments that agree on
-- `inputs`, whatever the operations of its expression mean.
pub parse_heuristic-reads :
    {V : Type 0} (m : Meaning V) (name : String) (fn : Function) (h : Heuristic) (f g : String → V)
    → parse_heuristic name fn ≡ ok h
    → All (λ n. f n ≡ g n) h.inputs
    → evaluate m h.arg f h.expr ≡ evaluate m h.arg g h.expr
unfolding parse_heuristic
parse_heuristic-reads m name fn h f g e same =
    let first = refuse-eq-ok (not fn.is_function) not_a_function _ e in
    let second = refuse-eq-ok (not (length fn.freevars == 0)) free_variables _ first.1 in
    let third = refuse-eq-ok (takes_more fn) not_one_argument _ second.1 in
    bind_elim (located fn.node) (read_node name) third.1 λ node is_node parsed.
      let (counts, good) = read_node-counts name node parsed in
      evaluate-eq m h.arg h.inputs f g same h.expr (omega (arith, counts)) good
