-- ===== src/Grid/Syntax.antt =====
-- grid.py: what `inspect` and `ast` say of a grid function, in the shapes that `compile_grid` tells
-- apart.
use intj.Prelude.{ℕ, String, Bool, Option, List, [], ◌∷◌, ◌++◌}
use intj.Prelude.Int.{ℤ}
use intj.Prelude.Dict.{Dict}

-- `ast.UAdd` and `ast.USub`.
pub data UnaryOperator : Type 0 where
  uadd usub : UnaryOperator

pub data BinaryOperator : Type 0 where
  add sub mult floor_division : BinaryOperator
  other_operator : BinaryOperator

-- `func` of an `ast.Call`: a name, an attribute of a name, or anything else.
pub data Callee : Type 0 where
  named : String → Callee
  attribute : (value attr : String) → Callee
  other_callee : (stores : List String) → Callee

-- `ast.Name` with a `Load` context is `load`. A `call` has two arguments and no keyword. `other` is any
-- node outside these shapes; of it only the names that it stores somewhere matter.
pub data Expr : Type 0 where
  int_constant : ℤ → Expr
  bool_constant : Bool → Expr
  load : String → Expr
  unary : UnaryOperator → Expr → Expr
  binary : BinaryOperator → Expr → Expr → Expr
  call : Callee → Expr → Expr → Expr
  if_expr : (test body orelse : Expr) → Expr
  other : (stores : List String) → Expr

-- `assign` has one target, a name. `returned` is a return of a tuple or a list.
pub data Statement : Type 0 where
  docstring : Statement
  assign : (target : String) → Expr → Statement
  returned : List Expr → Statement
  returned_other : (stores : List String) → Statement
  other_statement : (stores : List String) → Statement

-- A value of `__annotations__`: a type or its name, or anything else.
pub data Hint : Type 0 where
  int_type bool_type : Hint
  text : String → Hint
  other_hint : Hint

-- An `ast.arg`.
pub record Arg : Type 0 where
  pub arg : String
  pub has_annotation : Bool

-- What a global or a builtin name is bound to, as far as it matters.
pub data Object : Type 0 where
  builtin_min triton_module other_object : Object

-- `ast.FunctionDef`, with the parts of `ast.arguments` that are read.
pub record FunctionDef : Type 0 where
  pub name : String
  pub has_decorators : Bool
  pub positional_only : List Arg
  pub positional : List Arg
  pub keyword_only : List Arg
  pub has_vararg : Bool
  pub has_kwarg : Bool
  pub has_defaults : Bool
  pub has_kw_defaults : Bool
  pub body : List Statement

-- `source` is `none` where no source is found or it does not parse, and its `Option` is `none` where it
-- is not one def. `builtins` is the namespace that the function's builtins come from, where it is a dict.
pub record Function : Type 0 where
  pub is_function : Bool
  pub freevars : List String
  pub name : String
  pub varnames : List String
  pub argcount : ℕ
  pub has_defaults : Bool
  pub has_kwdefaults : Bool
  pub annotations : Dict Hint
  pub globals : Dict Object
  pub builtins : Option (Dict Object)
  pub source : Option (Option FunctionDef)

-- The names that an expression stores, in any place.
unfoldable pub stored : Expr → List String
stored (unary o e) = stored e
stored (binary o l r) = stored l ++ stored r
stored (call (other_callee names) l r) = names ++ (stored l ++ stored r)
stored (call (named f) l r) = stored l ++ stored r
stored (call (attribute v a) l r) = stored l ++ stored r
stored (if_expr t b o) = stored t ++ (stored b ++ stored o)
stored (other names) = names
stored (int_constant z) = []
stored (bool_constant b) = []
stored (load n) = []

unfoldable pub stored_all : List Expr → List String
unfolding stored
stored_all [] = []
stored_all (e ∷ rest) = stored e ++ stored_all rest

-- The names that the statements store.
unfoldable pub stored_in : List Statement → List String
unfolding stored stored_all
stored_in [] = []
stored_in (docstring ∷ rest) = stored_in rest
stored_in (assign target e ∷ rest) = target ∷ (stored e ++ stored_in rest)
stored_in (returned es ∷ rest) = stored_all es ++ stored_in rest
stored_in (returned_other names ∷ rest) = names ++ stored_in rest
stored_in (other_statement names ∷ rest) = names ++ stored_in rest
