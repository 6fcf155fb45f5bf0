-- ===== src/Heuristics/Examples.antt =====
-- `lambda a: a["stride"] % a["BLOCK"] == 0`, and functions that intj does not read.
use intj.Prelude.{ℕ, ◌≡◌, refl, String, true, false, some, [], ◌∷◌, ok, err, if◌then◌else◌}
use intj.Prelude.Names.{contains}
use intj.Heuristics.{
  bad_index, bad_use, Expr, ident, text, subscript, other, nil, cons, lambda, Function, Heuristic,
  children, size, walk_from, walk, subscript_key, collect, uses, returned, read_node,
  parse_heuristic,
}
use intj.Heuristics.Reads.{Meaning, evaluate, parse_heuristic-reads}

-- Every declaration that unfolds it computes with the definitions named here.
program : Unit {0}
unfolding contains children size walk_from walk subscript_key collect uses returned read_node
    parse_heuristic
program = tt

-- A function of one parameter `a` that returns an expression.
abbrev lambda_of : Expr → Function
lambda_of body = record {
  is_function = true;
  freevars = [];
  argcount = 1;
  posonlyargcount = 0;
  kwonlyargcount = 0;
  has_varargs = false;
  has_defaults = false;
  node = some (lambda "a" body);
}

abbrev read : String → Expr
read key = subscript (ident "a") (text key)

abbrev remainder : Expr
remainder = other "BinOp" (cons (read "stride") (cons (other "Mod" nil) (cons (read "BLOCK") nil)))

abbrev parsed : Heuristic
parsed = record { name = "ALIGNED"; inputs = "stride" ∷ "BLOCK" ∷ []; arg = "a"; expr = remainder }

parse-remainder : parse_heuristic "ALIGNED" (lambda_of remainder) ≡ ok parsed
unfolding program
parse-remainder = refl

-- `lambda a: f(a)` and `lambda a: a[a["N"]]`
parse-bare_use :
    parse_heuristic "X" (lambda_of (other "Call" (cons (ident "f") (cons (ident "a") nil))))
    ≡ err bad_use
unfolding program
parse-bare_use = refl

parse-computed_index :
    parse_heuristic "X" (lambda_of (subscript (ident "a") (read "N"))) ≡ err bad_index
unfolding program
parse-computed_index = refl

-- Expressions that mean how many values they have.
abbrev counting : Meaning ℕ
counting = record {
  global = λ name. 1;
  constant = λ s. 1;
  apply = λ tag parts. elim parts [ [] ↦ 0 | n ∷ rest ↦ n ];
  whole = λ env. env "M";
}

abbrev small : String → ℕ
small name = 4

abbrev other_m : String → ℕ
other_m name = if contains ("M" ∷ []) name then 9 else 4

parse_heuristic-reads_example :
    evaluate counting "a" small remainder ≡ evaluate counting "a" other_m remainder
unfolding program
parse_heuristic-reads_example =
    parse_heuristic-reads counting "ALIGNED" (lambda_of remainder) parsed small other_m
      parse-remainder (refl, (refl, tt))
