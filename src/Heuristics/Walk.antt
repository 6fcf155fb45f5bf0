-- ===== src/Heuristics/Walk.antt =====
-- About heuristic.py, `parse_heuristic`: the walk by `ast.walk`, and sums over it.
use intj.Prelude.{ℕ, zero, suc, ◌+◌, ◌≤◌, ◌≡◌, refl, List, [], ◌∷◌, ◌++◌, arith}
use intj.Heuristics.{
  Expr, ident, text, index, subscript, other, Exprs, nil, cons, to_list, children, size, size_all,
  walk_from, walk,
}

-- The weight of all the nodes of a tree.
unfoldable mutual
  pub total : (Expr → ℕ) → Expr → ℕ
  total weight (ident id) = weight (ident id)
  total weight (text s) = weight (text s)
  total weight (index e) = weight (index e) + total weight e
  total weight (subscript value slice) =
      weight (subscript value slice) + (total weight value + total weight slice)
  total weight (other tag es) = weight (other tag es) + total_all weight es

  pub total_all : (Expr → ℕ) → Exprs → ℕ
  total_all weight nil = 0
  total_all weight (cons e es) = total weight e + total_all weight es

-- The sum of a number over a list of expressions.
unfoldable pub sum_of : (Expr → ℕ) → List Expr → ℕ
sum_of weight [] = 0
sum_of weight (e ∷ es) = weight e + sum_of weight es

sum_of-append :
    (weight : Expr → ℕ) (xs ys : List Expr)
    → sum_of weight (xs ++ ys) ≡ sum_of weight xs + sum_of weight ys
unfolding sum_of
sum_of-append weight [] ys = omega arith
sum_of-append weight (x ∷ xs) ys = omega (arith, sum_of-append weight xs ys)

sum_of-to_list :
    (weight : Expr → ℕ) (es : Exprs) → total_all weight es ≡ sum_of (total weight) (to_list es)
unfolding sum_of total total_all
sum_of-to_list weight nil = refl
sum_of-to_list weight (cons e es) = omega (arith, sum_of-to_list weight es)

total-children :
    (weight : Expr → ℕ) (e : Expr) → total weight e ≡ weight e + sum_of (total weight) (children e)
unfolding sum_of total total_all children
total-children weight (ident id) = omega arith
total-children weight (text s) = omega arith
total-children weight (index e) = omega arith
total-children weight (subscript value slice) = omega arith
total-children weight (other tag es) = omega (arith, sum_of-to_list weight es)

abbrev one : Expr → ℕ
one e = 1

mutual
  unfolding total total_all size size_all

  size-total : (e : Expr) → size e ≡ total one e
  size-total (ident id) = refl
  size-total (text s) = refl
  size-total (index e) = omega (arith, size-total e)
  size-total (subscript value slice) = omega (arith, size-total value, size-total slice)
  size-total (other tag es) = omega (arith, size-total_all es)

  size-total_all : (es : Exprs) → size_all es ≡ total_all one es
  size-total_all nil = refl
  size-total_all (cons e es) = omega (arith, size-total e, size-total_all es)

-- With fuel for all the nodes of the queue, every one of them comes out.
sum_of-walk_from :
    (weight : Expr → ℕ) (fuel : ℕ) (queue : List Expr)
    → sum_of (total one) queue ≤ fuel
    → sum_of weight (walk_from fuel queue) ≡ sum_of (total weight) queue
unfolding sum_of walk_from
sum_of-walk_from weight zero [] enough = refl
sum_of-walk_from weight zero (e ∷ queue) enough =
    absurd (omega (arith, enough, total-children one e))
sum_of-walk_from weight (suc fuel) [] enough = refl
sum_of-walk_from weight (suc fuel) (e ∷ queue) enough = omega (
  arith,
  total-children weight e,
  sum_of-append (total weight) queue (children e),
  sum_of-walk_from weight fuel (queue ++ children e)
      (omega (arith, total-children one e, sum_of-append (total one) queue (children e))),
)

-- The walk takes as many steps as there are nodes: its sum of any weight is that of the whole tree.
pub sum_of-walk : (weight : Expr → ℕ) (e : Expr) → sum_of weight (walk e) ≡ total weight e
unfolding sum_of walk
sum_of-walk weight e =
    omega (arith, sum_of-walk_from weight (size e) (e ∷ []) (omega (arith, size-total e)))
