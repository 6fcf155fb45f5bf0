-- ===== src/Grid/Code.antt =====
-- grid.py and runtime/intj_runtime.h: the C statements that a lowered grid function consists of, and
-- what they do.
use intj.Prelude.{
  ℕ, zero, suc, ◌-◌, ◌/◌, ◌%◌, String, Bool, true, false, not, ◌&&◌, Option, none, some, List, [],
  ◌∷◌, length, any, Result, ok, err, ◌>>=◌, ◌>>◌, refuse, ◌==◌, if◌then◌else◌, ltb,
}
use intj.Prelude.Int.{ℤ, pos, negsuc, ◌+ℤ◌, ◌-ℤ◌, ◌*ℤ◌, fits_int64, ltb_ℤ, eqb_ℤ, abs, negate_ℕ}
use intj.Values.{Value}

-- `undefined` stands for what C leaves undefined: a variable that is not declared or not set, a second
-- declaration, and an index past the end.
pub data RunError : Type 0 where
  overflow division_by_zero bad_dimension undefined : RunError
  not_an_int not_a_bool not_a_tensor : (name : String) → RunError

pub data Operation : Type 0 where
  add sub mul floor cdiv : Operation

-- `gv_n` is the variable `n`.
pub data Operand : Type 0 where
  zero_literal : Operand
  variable : ℕ → Operand

-- A block of statements: each constructor is one statement, with those that follow it.
pub data Code : Type 0 where
  end : Code
  declare : ℕ → Code → Code
  define : ℕ → ℤ → Code → Code
  checked : Operation → (left right : Operand) → (out : ℕ) → Code → Code
  select_min : (left right out : ℕ) → Code → Code
  set : (out source : ℕ) → Code → Code
  branch : (test : ℕ) → (body orelse : Code) → Code → Code

infixr 66 ◌then◌
unfoldable pub ◌then◌ : Code → Code → Code
end then k = k
declare v c then k = declare v (c then k)
define v z c then k = define v z (c then k)
checked o l r v c then k = checked o l r v (c then k)
select_min l r v c then k = select_min l r v (c then k)
set v s c then k = set v s (c then k)
branch t y n c then k = branch t y n (c then k)

-- `INTJ_UNLIKELY(__builtin_..._overflow(...)) ? intj_grid_overflow() : 0`
unfoldable pub in_int64 : ℤ → Result RunError ℤ
in_int64 z = if fits_int64 z then ok z else err overflow

abbrev pub is_below_zero : ℤ → Bool
is_below_zero z = ltb_ℤ z (pos 0)

abbrev pub differ : Bool → Bool → Bool
differ true b = not b
differ false b = b

-- C's `n / d` and `n % d`, which round towards zero.
unfoldable pub quotient : ℤ → ℤ → ℤ
quotient n d =
    if differ (is_below_zero n) (is_below_zero d)
    then negate_ℕ (abs n / abs d)
    else pos (abs n / abs d)

unfoldable pub remainder : ℤ → ℤ → ℤ
remainder n d = if is_below_zero n then negate_ℕ (abs n % abs d) else pos (abs n % abs d)

-- `intj_grid_floor128`, whose arguments and quotient an `__int128` holds.
unfoldable pub grid_floor128 : ℤ → ℤ → Result RunError ℤ
unfolding in_int64 quotient remainder ◌-ℤ◌
grid_floor128 n d = do
  refuse (eqb_ℤ d (pos 0)) division_by_zero
  let q = quotient n d
  let r = remainder n d
  in_int64 (
      if not (eqb_ℤ r (pos 0)) && differ (is_below_zero r) (is_below_zero d) then q -ℤ pos 1 else q)

-- `intj_grid_add`, `intj_grid_sub`, `intj_grid_mul`, `intj_grid_floor` and `intj_grid_cdiv`.
unfoldable pub operate : Operation → ℤ → ℤ → Result RunError ℤ
unfolding in_int64 grid_floor128 ◌+ℤ◌ ◌-ℤ◌ ◌*ℤ◌
operate add a b = in_int64 (a +ℤ b)
operate sub a b = in_int64 (a -ℤ b)
operate mul a b = in_int64 (a *ℤ b)
operate floor a b = grid_floor128 a b
operate cdiv a b = grid_floor128 (a +ℤ b -ℤ pos 1) b

-- The declared variables, the last one first; `none` is not set yet.
abbrev pub Store : Type 0
Store = List (ℕ × Option ℤ)

unfoldable pub read : ℕ → Store → Result RunError ℤ
read v [] = err undefined
read v ((w, cell) ∷ s) =
    if w == v then elim cell [ none ↦ err undefined | some z ↦ ok z ] else read v s

unfoldable pub write : ℕ → ℤ → Store → Result RunError Store
write v z [] = err undefined
write v z ((w, cell) ∷ s) =
    let rest = write v z s in
    if w == v then ok ((w, some z) ∷ s) else rest >>= λ t. ok ((w, cell) ∷ t)

-- A new variable in front of the others.
unfoldable pub enter : ℕ → Option ℤ → Store → Result RunError Store
enter v cell s = if any (λ e. e.0 == v) s then err undefined else ok ((v, cell) ∷ s)

abbrev pub drop : ℕ → Store → Store
drop zero s = s
drop (suc n) [] = []
drop (suc n) (e ∷ s) = drop n s

-- At a block's end its variables are gone.
unfoldable pub leave : Store → Store → Store
leave before after = drop (length after - length before) after

unfoldable pub operand_value : Operand → Store → Result RunError ℤ
unfolding read
operand_value zero_literal s = ok (pos 0)
operand_value (variable v) s = read v s

unfoldable pub execute : Code → Store → Result RunError Store
unfolding operate read write enter leave operand_value
execute end s = ok s
execute (declare v k) s = enter v none s >>= execute k
execute (define v z k) s = enter v (some z) s >>= execute k
execute (checked o l r v k) s = do
  x ← operand_value l s
  y ← operand_value r s
  z ← operate o x y
  t ← write v z s
  execute k t
execute (select_min l r v k) s = do
  x ← read l s
  y ← read r s
  t ← write v (if ltb_ℤ x y then x else y) s
  execute k t
execute (set v source k) s = do x ← read source s; t ← write v x s; execute k t
execute (branch t body orelse k) s =
    let taken = execute body s in
    let otherwise = execute orelse s in
    let side = λ (x : ℤ). if eqb_ℤ x (pos 0) then otherwise else taken in
    read t s >>= λ x. side x >>= λ after. execute k (leave s after)

-- `intj_grid_output`
unfoldable pub grid_output : ℤ → Result RunError ℕ
grid_output (negsuc n) = err bad_dimension
grid_output (pos n) = if ltb n 4294967296 then ok n else err bad_dimension

-- `intj_grid_input_int`; a `PyLong` is taken by its exact type.
unfoldable pub grid_input_int : String → Value → Result RunError ℤ
unfolding in_int64
grid_input_int name (Value.int z) = in_int64 z
grid_input_int name _ = err (not_an_int name)

-- `intj_grid_input_bool`
unfoldable pub grid_input_bool : String → Value → Result RunError ℤ
grid_input_bool name (Value.bool true) = ok (pos 1)
grid_input_bool name (Value.bool false) = ok (pos 0)
grid_input_bool name _ = err (not_a_bool name)

abbrev same : Bool → Bool → Bool
same true b = b
same false b = not b

-- `intj_grid_input_dep`, of the record's pair (value, 1 if it was a bool).
unfoldable pub grid_input_dep : ℤ × Bool → Bool → String → Result RunError ℤ
grid_input_dep (value, is_bool) want_bool name =
    if same is_bool want_bool
    then ok value
    else err (if want_bool then not_a_bool name else not_an_int name)
