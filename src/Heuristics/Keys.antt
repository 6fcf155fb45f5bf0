-- ===== src/Heuristics/Keys.antt =====
-- About heuristic.py, `parse_heuristic`: the names and the counts that its loop collects.
use intj.Prelude.{
  ℕ, ◌+◌, ◌≤◌, ◌≡◌, refl, sym, subst, ◌∙◌, String, ap, Bool, true, false, not, Option, none, some,
  List, [], ◌∷◌, ◌++◌, Result, ok, err, bind_elim, ok-inj, refuse-eq-ok, arith, eq_iff, ◌==◌,
  Bool-cases, inl, inr, if◌then◌else◌,
}
use intj.Prelude.Names.{contains, contains-append}
use intj.Heuristics.{
  Node, read_node, Expr, ident, text, index, subscript, other, Exprs, nil, cons, HeuristicError,
  Heuristic, walk, unwrapped, literal, is_name, subscript_key, collect, uses, returned, bad_use,
}
use intj.Heuristics.Walk.{total, total_all, sum_of, sum_of-walk}

abbrev pub one_if : Bool → ℕ
one_if true = 1
one_if false = 0

-- A mention of the argument.
abbrev pub use_at : String → Expr → ℕ
use_at arg e = one_if (is_name arg e)

-- A subscript of the argument.
abbrev pub key_at : String → Expr → ℕ
key_at arg (subscript value slice) = one_if (is_name arg value)
key_at arg _ = 0

-- A subscript of the argument by anything but a literal text of the list.
abbrev pub bad_key : List String → Result HeuristicError (Option String) → ℕ
bad_key inputs (err e) = 1
bad_key inputs (ok none) = 0
bad_key inputs (ok (some k)) = one_if (not (contains inputs k))

abbrev pub bad_at : List String → String → Expr → ℕ
bad_at inputs arg e = bad_key inputs (subscript_key arg e)

uses-eq : (arg : String) (nodes : List Expr) → uses arg nodes ≡ sum_of (use_at arg) nodes
unfolding uses sum_of
uses-eq arg [] = refl
uses-eq arg (e ∷ es) = ground (arith, uses-eq arg es)

-- The key of a subscript is added to the list.
abbrev noted : List String → Option String → List String
noted inputs none = inputs
noted inputs (some k) = if contains inputs k then inputs else inputs ++ k ∷ []

abbrev counted : ℕ → Option String → ℕ
counted n none = n
counted n (some k) = n + 1

-- Whether there is a key.
abbrev has_key : Option String → ℕ
has_key none = 0
has_key (some k) = 1

literal-has_key : (e : Expr) {o : Option String} → literal e ≡ ok o → has_key o ≡ 1
literal-has_key (text s) h = subst (λ o. has_key o ≡ 1) (ok-inj h) refl
literal-has_key (ident id) h = cc
literal-has_key (index e) h = cc
literal-has_key (subscript value slice) h = cc
literal-has_key (other tag es) h = cc

key_at-eq :
    (arg : String) (e : Expr) {o : Option String}
    → subscript_key arg e ≡ ok o
    → key_at arg e ≡ has_key o
unfolding subscript_key
key_at-eq arg (ident id) h = subst (λ o. 0 ≡ has_key o) (ok-inj h) refl
key_at-eq arg (text s) h = subst (λ o. 0 ≡ has_key o) (ok-inj h) refl
key_at-eq arg (index e) h = subst (λ o. 0 ≡ has_key o) (ok-inj h) refl
key_at-eq arg (other tag es) h = subst (λ o. 0 ≡ has_key o) (ok-inj h) refl
key_at-eq arg (subscript value slice) h = elim (Bool-cases (is_name arg value)) [
  | inl hit ↦ ap one_if hit ∙ sym (literal-has_key (unwrapped slice) (rw hit at h))
  | inr miss ↦ ap one_if miss ∙ subst (λ o. 0 ≡ has_key o) (ok-inj (rw miss at h)) refl
]

-- What `collect` finds in the nodes: their keys beside the old ones, and how many subscripts they are.
record Found (arg : String) (nodes : List Expr) (inputs : List String) (n : ℕ)
    (found : List String × ℕ) : Type 0 where
  pub none_bad : sum_of (bad_at found.0 arg) nodes ≡ 0
  pub kept : (k : String) → contains inputs k ≡ true → contains found.0 k ≡ true
  pub counts : found.1 ≡ n + sum_of (key_at arg) nodes

noted-keeps :
    (inputs : List String) (o : Option String) (k : String)
    → contains inputs k ≡ true
    → contains (noted inputs o) k ≡ true
noted-keeps inputs none k h = h
noted-keeps inputs (some j) k h = elim (Bool-cases (contains inputs j)) [
  | inl old ↦ rw old h
  | inr new ↦ rw new (contains-append inputs (j ∷ []) k ∙ ground (arith, h))
]

noted-adds : (inputs : List String) (k : String) → contains (noted inputs (some k)) k ≡ true
unfolding contains
noted-adds inputs k = elim (Bool-cases (contains inputs k)) [
  | inl old ↦ rw old old
  | inr new ↦ rw new (contains-append inputs (k ∷ []) k ∙ ground (arith, eq_iff k k))
]

-- A key that is in the list at last is not bad.
bad_at-zero :
    (arg : String) (e : Expr) (found : List String) {o : Option String}
    → subscript_key arg e ≡ ok o
    → ((k : String) → o ≡ some k → contains found k ≡ true)
    → bad_at found arg e ≡ 0
bad_at-zero arg e found {o = none} h there = ap (bad_key found) h
bad_at-zero arg e found {o = some k} h there = ap (bad_key found) h ∙ ground (arith, there k refl)

collect-Found :
    (arg : String) (nodes : List Expr) (inputs : List String) (n : ℕ) {found : List String × ℕ}
    → collect arg nodes (inputs, n) ≡ ok found
    → Found arg nodes inputs n found
unfolding collect sum_of
collect-Found arg [] inputs n h =
    subst (Found arg [] inputs n) (ok-inj h)
      (record { none_bad = refl; kept = λ k h. h; counts = omega arith })
collect-Found arg (e ∷ es) inputs n {found} h =
    bind_elim (subscript_key arg e) _ h
      λ o key rest. add o key (collect-Found arg es (noted inputs o) (counted n o) (same o rest))
  where
    same :
        (o : Option String)
        → collect arg es (elim o [
          | none ↦ (inputs, n)
          | some k ↦ (if contains inputs k then inputs else inputs ++ k ∷ [], n + 1)
        ])
          ≡ ok found
        → collect arg es (noted inputs o, counted n o) ≡ ok found
    same none h = h
    same (some k) h = h

    add :
        (o : Option String)
        → subscript_key arg e ≡ ok o
        → Found arg es (noted inputs o) (counted n o) found
        → Found arg (e ∷ es) inputs n found
    add o key f = record {
      none_bad = omega (
        arith,
        f.none_bad,
        bad_at-zero arg e found.0 key
            (λ k is_k. f.kept k (ap (λ o. contains (noted inputs o) k) is_k ∙ noted-adds inputs k)),
      );
      kept = λ k h. f.kept k (noted-keeps inputs o k h);
      counts = f.counts ∙ counted-eq o key;
    }
      where
        counted-eq :
            (o : Option String)
            → subscript_key arg e ≡ ok o
            → counted n o + sum_of (key_at arg) es ≡ n + (key_at arg e + sum_of (key_at arg) es)
        counted-eq none k = omega (arith, key_at-eq arg e k)
        counted-eq (some x) k = omega (arith, key_at-eq arg e k)

-- A subscript of the argument holds a mention of it, so there are no more of them than mentions.
mutual
  unfolding total total_all

  pub keys-le-uses :
      (arg : String) (e : Expr)
      → one_if (is_name arg e) + total (key_at arg) e ≤ total (use_at arg) e
  keys-le-uses arg (ident id) = omega arith
  keys-le-uses arg (text s) = omega arith
  keys-le-uses arg (index e) = omega (arith, keys-le-uses arg e)
  keys-le-uses arg (other tag es) = omega (arith, keys-le-uses_all arg es)
  keys-le-uses arg (subscript value slice) =
      omega (arith, keys-le-uses arg value, keys-le-uses arg slice)

  pub keys-le-uses_all :
      (arg : String) (es : Exprs) → total_all (key_at arg) es ≤ total_all (use_at arg) es
  keys-le-uses_all arg nil = omega arith
  keys-le-uses_all arg (cons e es) = omega (arith, keys-le-uses arg e, keys-le-uses_all arg es)

-- What a successful parse says of the counts.
pub read_node-counts :
    (name : String) (node : Node) {h : Heuristic}
    → read_node name node ≡ ok h
    → (total (use_at h.arg) h.expr ≡ total (key_at h.arg) h.expr)
      × (total (bad_at h.inputs h.arg) h.expr ≡ 0)
unfolding read_node
read_node-counts name node e = bind_elim (returned node) _ e λ found is_found rest.
    bind_elim (collect found.0 (walk found.1) ([], 0)) _ rest λ keys collected rest.
      let (tested, done) =
        refuse-eq-ok (not (uses found.0 (walk found.1) == keys.1)) bad_use _ rest in
      let kept = collect-Found found.0 (walk found.1) [] 0 collected in
      subst
        (λ (h : Heuristic).
          (total (use_at h.arg) h.expr ≡ total (key_at h.arg) h.expr)
          × (total (bad_at h.inputs h.arg) h.expr ≡ 0))
        (ok-inj done)
        (
          ground (
            arith,
            tested,
            kept.counts,
            uses-eq found.0 (walk found.1),
            sum_of-walk (use_at found.0) found.1,
            sum_of-walk (key_at found.0) found.1,
          ),
          sym (sum_of-walk (bad_at keys.0 found.0) found.1) ∙ kept.none_bad,
        )
