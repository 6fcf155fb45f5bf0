-- ===== src/Heuristics.antt =====
-- heuristic.py: reading a `@triton.heuristics` function. What Python's `inspect`, `linecache` and
-- `compile` say of the function (`_locate`) is part of the value `Function`; the walk over the located
-- expression and the checks are modelled.
mod Examples
pub mod Keys
pub mod Reads
pub mod Walk
use intj.Prelude.{
  ℕ, zero, suc, ◌+◌, String, Bool, true, false, not, ◌&&◌, ◌||◌, Option, none, some, List, [], ◌∷◌,
  ◌++◌, length, filter, Result, ok, err, ◌>>=◌, ◌>>◌, refuse, str_eq, ◌==◌, if◌then◌else◌,
}
use intj.Prelude.Names.{contains}

-- Expressions of Python's `ast`. `other` is every node that the walk only passes through; its tag says
-- which, and its children come in field order. `index` is the wrapper of Python 3.8.
mutual
  pub data Expr : Type 0 where
    ident : String → Expr
    text : String → Expr
    index : Expr → Expr
    subscript : (value slice : Expr) → Expr
    other : (tag : String) → Exprs → Expr

  pub data Exprs : Type 0 where
    nil : Exprs
    cons : Expr → Exprs → Exprs

pub data HeuristicError : Type 0 where
  not_a_function free_variables not_one_argument not_located not_a_single_return bad_index bad_use :
      HeuristicError

-- `body` of a located node: a lambda's expression, or a def's statements.
pub data Statement : Type 0 where
  docstring : Statement
  return_value : Expr → Statement
  statement : Statement

pub data Node : Type 0 where
  lambda : (arg : String) → Expr → Node
  def : (arg : String) → List Statement → Node

-- A callable as `parse_heuristic` sees it: `node` is what `_locate` returns, `none` where it raises.
pub record Function : Type 0 where
  pub is_function : Bool
  pub freevars : List String
  pub argcount : ℕ
  pub posonlyargcount : ℕ
  pub kwonlyargcount : ℕ
  pub has_varargs : Bool
  pub has_defaults : Bool
  pub node : Option Node

pub record Heuristic : Type 0 where
  pub name : String
  pub inputs : List String
  pub arg : String
  pub expr : Expr

abbrev pub to_list : Exprs → List Expr
to_list nil = []
to_list (cons e es) = e ∷ to_list es

-- `ast.iter_child_nodes`
unfoldable pub children : Expr → List Expr
children (ident id) = []
children (text s) = []
children (index e) = e ∷ []
children (subscript value slice) = value ∷ slice ∷ []
children (other tag es) = to_list es

unfoldable mutual
  pub size : Expr → ℕ
  size (ident id) = 1
  size (text s) = 1
  size (index e) = 1 + size e
  size (subscript value slice) = 1 + (size value + size slice)
  size (other tag es) = 1 + size_all es

  pub size_all : Exprs → ℕ
  size_all nil = 0
  size_all (cons e es) = size e + size_all es

-- `ast.walk`, breadth first: the queue's head comes out, and its children go to the end. The fuel is
-- the number of nodes.
unfoldable pub walk_from : ℕ → List Expr → List Expr
unfolding children
walk_from zero queue = []
walk_from (suc fuel) [] = []
walk_from (suc fuel) (e ∷ queue) = e ∷ walk_from fuel (queue ++ children e)

unfoldable pub walk : Expr → List Expr
unfolding walk_from size
walk e = walk_from (size e) (e ∷ [])

abbrev pub unwrapped : Expr → Expr
unwrapped (index e) = e
unwrapped e = e

abbrev pub literal : Expr → Result HeuristicError (Option String)
literal (text key) = ok (some key)
literal _ = err bad_index

abbrev pub is_name : String → Expr → Bool
is_name arg (ident id) = str_eq id arg
is_name arg _ = false

-- `_subscript_key`
unfoldable pub subscript_key : String → Expr → Result HeuristicError (Option String)
subscript_key arg (subscript value slice) =
    if is_name arg value then literal (unwrapped slice) else ok none
subscript_key arg _ = ok none

-- The loop over `ast.walk(expr)`: the distinct keys in the order of the walk, and how many subscripts
-- there are.
unfoldable pub collect :
    String → List Expr → List String × ℕ → Result HeuristicError (List String × ℕ)
unfolding subscript_key
collect arg [] found = ok found
collect arg (e ∷ rest) (inputs, subscripts) = do
  key ← subscript_key arg e
  collect arg rest (elim key [
    | none ↦ (inputs, subscripts)
    | some k ↦ (if contains inputs k then inputs else inputs ++ k ∷ [], subscripts + 1)
  ])

unfoldable pub uses : String → List Expr → ℕ
uses arg nodes = length (filter (is_name arg) nodes)

-- The expression that the function returns, and its parameter.
unfoldable pub returned : Node → Result HeuristicError (String × Expr)
returned (lambda arg body) = ok (arg, body)
returned (def arg (docstring ∷ return_value e ∷ [])) = ok (arg, e)
returned (def arg (return_value e ∷ [])) = ok (arg, e)
returned (def arg _) = err not_a_single_return

-- `parse_heuristic` from the located node on.
unfoldable pub read_node : String → Node → Result HeuristicError Heuristic
unfolding collect uses walk returned
read_node name node = do
  found ← returned node
  keys ← collect found.0 (walk found.1) ([], 0)
  refuse (not (uses found.0 (walk found.1) == keys.1)) bad_use
  ok (record { name = name; inputs = keys.0; arg = found.0; expr = found.1 })

abbrev pub takes_more : Function → Bool
takes_more fn =
    not (fn.argcount == 1)
    || not (fn.posonlyargcount == 0)
    || not (fn.kwonlyargcount == 0)
    || fn.has_varargs
    || fn.has_defaults

abbrev pub located : Option Node → Result HeuristicError Node
located none = err not_located
located (some node) = ok node

-- `parse_heuristic`
unfoldable pub parse_heuristic : String → Function → Result HeuristicError Heuristic
unfolding read_node
parse_heuristic name fn = do
  refuse (not fn.is_function) not_a_function
  refuse (not (length fn.freevars == 0)) free_variables
  refuse (takes_more fn) not_one_argument
  node ← located fn.node
  read_node name node
