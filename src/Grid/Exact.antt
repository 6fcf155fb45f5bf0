-- ===== src/Grid/Exact.antt =====
-- About runtime/intj_runtime.h: the checked arithmetic of the evaluators against Python's own.
use native.Mathlib.Nat.{div-eq_of_lt-le, mod-add-div', mod-lt}
use intj.Prelude.{
  ℕ, zero, suc, ◌+◌, ◌*◌, ◌/◌, ◌%◌, ◌<◌, ◌≡◌, ◌≢◌, refl, sym, ap, false, not, ◌&&◌, Result, ok, err,
  ◌>>=◌, ◌>>◌, refuse, arith, if◌then◌else◌, Bool-cases, inl, inr,
}
use intj.Prelude.Int.{ℤ, pos, negsuc, ◌+ℤ◌, ◌-ℤ◌, floor_div, fits_int64, eqb_ℤ}
use intj.Grid.Code.{
  Operation, add, sub, mul, floor, cdiv, RunError, overflow, division_by_zero, bad_dimension,
  undefined, not_an_int, not_a_bool, not_a_tensor, in_int64, is_below_zero, differ, quotient,
  remainder, grid_floor128, operate,
}
use intj.Grid.Meaning.{python}

-- (a + 1) / k against a / k.
suc-div_zero : (a k : ℕ) → 0 < k → suc a % k ≡ 0 → suc a / k ≡ suc (a / k)
suc-div_zero a k h r = by_quotient (suc a / k) (omega (arith, mod-add-div' (suc a) k))
  where
    by_quotient : (q : ℕ) → q * k ≡ suc a → q ≡ suc (a / k)
    by_quotient zero e = absurd (omega arith)
    by_quotient (suc q) e =
        let step : suc q * k ≡ q * k + k = grind arith in
        let step2 : (q + 1) * k ≡ q * k + k = grind arith in
        ap suc (sym (div-eq_of_lt-le {k = q} k (omega arith) (omega arith)))

suc-div_pos : (a k : ℕ) → 0 < k → suc a % k ≢ 0 → suc a / k ≡ a / k
suc-div_pos a k h r =
    let q : ℕ = suc a / k in
    let whole : suc a % k + q * k ≡ suc a = mod-add-div' (suc a) k in
    let small : suc a % k < k = mod-lt (suc a) h in
    let step : (q + 1) * k ≡ q * k + k = grind arith in
    sym (div-eq_of_lt-le {k = q} k (omega arith) (omega arith))

rounded : ℤ → ℤ → ℤ
unfolding quotient remainder ◌-ℤ◌
rounded n d =
    if not (eqb_ℤ (remainder n d) (pos 0))
      && differ (is_below_zero (remainder n d)) (is_below_zero d)
    then quotient n d -ℤ pos 1
    else quotient n d

rounded_lem : (n d : ℤ) → eqb_ℤ d (pos 0) ≡ false → rounded n d ≡ floor_div n d
unfolding rounded quotient remainder ◌-ℤ◌ floor_div
rounded_lem (pos a) (pos zero) h = ground arith
rounded_lem (pos a) (pos (suc b)) h = ground arith
rounded_lem (negsuc a) (pos zero) h = ground arith
rounded_lem (negsuc a) (pos (suc b)) h =
    ground (arith, suc-div_zero a (suc b), suc-div_pos a (suc b))
rounded_lem (pos zero) (negsuc b) h = ground arith
rounded_lem (pos (suc a)) (negsuc b) h =
    ground (arith, suc-div_zero a (suc b), suc-div_pos a (suc b))
rounded_lem (negsuc a) (negsuc b) h = ground arith

-- Checked code against code that never overflows: the same value or the same error, unless it raised
-- OverflowError.
abbrev pub Close {ℓ} : {A : Type ℓ} → Result RunError A → Result RunError A → Type ℓ
Close (ok v) m = m ≡ ok v
Close (err overflow) m = Unit
Close (err division_by_zero) m = m ≡ err division_by_zero
Close (err bad_dimension) m = m ≡ err bad_dimension
Close (err undefined) m = m ≡ err undefined
Close (err (not_an_int n)) m = m ≡ err (not_an_int n)
Close (err (not_a_bool n)) m = m ≡ err (not_a_bool n)
Close (err (not_a_tensor n)) m = m ≡ err (not_a_tensor n)

pub Close-self {ℓ} : {A : Type ℓ} (m : Result RunError A) → Close m m
Close-self (ok v) = refl
Close-self (err overflow) = tt
Close-self (err division_by_zero) = refl
Close-self (err bad_dimension) = refl
Close-self (err undefined) = refl
Close-self (err (not_an_int n)) = refl
Close-self (err (not_a_bool n)) = refl
Close-self (err (not_a_tensor n)) = refl

pub Close-bind {ℓ} :
    {A B : Type ℓ} (m m' : Result RunError A) (f g : A → Result RunError B)
    → Close m m'
    → ((v : A) → Close (f v) (g v))
    → Close (m >>= f) (m' >>= g)
Close-bind (ok v) m' f g h k = rw h (k v)
Close-bind (err overflow) m' f g h k = tt
Close-bind (err division_by_zero) m' f g h k = rw h refl
Close-bind (err bad_dimension) m' f g h k = rw h refl
Close-bind (err undefined) m' f g h k = rw h refl
Close-bind (err (not_an_int n)) m' f g h k = rw h refl
Close-bind (err (not_a_bool n)) m' f g h k = rw h refl
Close-bind (err (not_a_tensor n)) m' f g h k = rw h refl

in_int64-Close : (z : ℤ) → Close (in_int64 z) (ok z)
unfolding in_int64
in_int64-Close z = elim (Bool-cases (fits_int64 z)) [ inl e ↦ rw e refl | inr e ↦ rw e tt ]

floor-python :
    (n d : ℤ)
    → grid_floor128 n d
      ≡ ((refuse (eqb_ℤ d (pos 0)) division_by_zero >> ok (floor_div n d)) >>= in_int64)
unfolding grid_floor128 rounded
floor-python n d = elim (Bool-cases (eqb_ℤ d (pos 0))) [
  | inl e ↦ rw e refl
  | inr e ↦ rw e (ap in_int64 (rounded_lem n d e))
]

-- Each operation of the runtime computes what Python's does, raises ZeroDivisionError where Python
-- does, and raises OverflowError exactly where Python's result is outside int64.
pub operate-python : (o : Operation) (a b : ℤ) → operate o a b ≡ (python o a b >>= in_int64)
unfolding operate python
operate-python add a b = refl
operate-python sub a b = refl
operate-python mul a b = refl
operate-python floor a b = floor-python a b
operate-python cdiv a b = floor-python (a +ℤ b -ℤ pos 1) b

checked-Close : (m : Result RunError ℤ) → Close (m >>= in_int64) m
checked-Close (ok z) = in_int64-Close z
checked-Close (err overflow) = tt
checked-Close (err division_by_zero) = refl
checked-Close (err bad_dimension) = refl
checked-Close (err undefined) = refl
checked-Close (err (not_an_int n)) = refl
checked-Close (err (not_a_bool n)) = refl
checked-Close (err (not_a_tensor n)) = refl

pub operate-Close : (o : Operation) (a b : ℤ) → Close (operate o a b) (python o a b)
operate-Close o a b = rw (operate-python o a b) (checked-Close (python o a b))
