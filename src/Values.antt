-- ===== src/Values.antt =====
-- The Python values that a launcher is given, told apart by their exact type, and what the source
-- asks of a `float`: whether `struct` can pack it as four bytes, and whether that is exact.
use intj.Prelude.{
  ℕ, zero, suc, ◌+◌, ◌*◌, ◌/◌, ◌%◌, ◌^◌, String, Bool, true, false, ◌&&◌, Option, none, some, ltb,
  leb, ◌==◌, if◌then◌else◌,
}
use intj.Prelude.Int.{ℤ}

-- A double. `finite s m` is the number m * 2^-1074, negative if `s`: every finite double is one.
pub data Float : Type 0 where
  finite : (negative : Bool) → (magnitude : ℕ) → Float
  infinite : (negative : Bool) → Float
  nan : Float

-- `dtype` and `jit` are Triton's types and functions; `object` is any other object, by identity.
pub data Value : Type 0 where
  null : Value
  bool : Bool → Value
  int : ℤ → Value
  float : Float → Value
  str : String → Value
  dtype : String → Value
  jit : (module_name qualname cache_key : String) → Value
  object : ℕ → Value

-- The exponent of the gap between neighbouring four-byte floats near `m`, in units of 2^-1074: a
-- float has 24 significant bits, and no gap is below 2^-149.
gap_exponent : (rounds exponent m : ℕ) → ℕ
gap_exponent zero exponent m = exponent
gap_exponent (suc rounds) exponent m =
    let higher = gap_exponent rounds (exponent + 1) m in
    if leb (2 ^ (exponent + 24)) m then higher else exponent

-- To the nearest multiple of `gap`, a tie to the even one.
round_to : (gap m : ℕ) → ℕ
round_to gap m =
    let below = m / gap in
    let rest = m % gap in
    if ltb (rest * 2) gap
    then below * gap
    else if ltb gap (rest * 2)
    then (below + 1) * gap
    else if below % 2 == 0
    then below * gap
    else (below + 1) * gap

-- 2^128 in units of 2^-1074: the first magnitude that four bytes cannot hold.
abbrev f32_limit : ℕ
f32_limit = 2 ^ 1202

-- `struct.unpack(">f", struct.pack(">f", value))[0]`, or `none` where `pack` raises OverflowError.
-- A double is below 2^2098 in these units, so 1,174 rounds from 2^925 reach its gap.
unfoldable pub round_f32 : Float → Option Float
unfolding gap_exponent round_to
round_f32 (finite s m) =
    let rounded = round_to (2 ^ gap_exponent 1174 925 m) m in
    if ltb rounded f32_limit then some (finite s rounded) else none
round_f32 (infinite s) = some (infinite s)
round_f32 nan = some nan

abbrev same_sign : Bool → Bool → Bool
same_sign true b = b
same_sign false true = false
same_sign false false = true

-- `==` of floats: a nan equals nothing, and the two zeros are equal.
unfoldable pub float_eq : Float → Float → Bool
float_eq (finite s m) (finite t n) = m == n && (if m == 0 then true else same_sign s t)
float_eq (infinite s) (infinite t) = same_sign s t
float_eq _ _ = false
