-- ===== src/ScalarTypes/Fits.antt =====
-- About scalar_types.py, `fits`: integers, and types of different width.
use intj.Prelude.{
  ℕ, ◌-◌, ◌/◌, ◌%◌, ◌^◌, String, ◌≡◌, subst, some-inj, sym, ◌∙◌, ◌↔◌, inl, inr, true, false, ◌||◌,
  none, some, List, [], ◌∷◌, All, arith, str_eq, ltb, Bool-cases, if◌then◌else◌,
}
use intj.Prelude.Int.{ℤ, pos, negsuc, negate_ℕ}
use intj.Values.{Value}
use intj.ScalarTypes.{
  Kind, scalar, Scalar, scalars, ParamKind, find_scalar, scalar_of, is_signed, is_unsigned,
  fits_scalar, fits, key_bytes, is_integer,
}

-- What a lookup in a table finds has the property that every entry has.
pub find_scalar-All :
    (P : Scalar → Type 0) (table : List Scalar) (name : String) {s : Scalar}
    → All P table
    → find_scalar table name ≡ some s
    → P s
unfolding find_scalar
find_scalar-All P [] name h e = cc
find_scalar-All P (x ∷ rest) name {s} h e = elim (Bool-cases (str_eq x.name name)) [
  | inl hit ↦ subst P (some-inj x s (rw hit at e)) h.0
  | inr miss ↦ find_scalar-All P rest name h.1 (rw miss at e)
]

pub scalar_of-All :
    (P : Scalar → Type 0) (name : String) {s : Scalar}
    → All P scalars
    → scalar_of (some name) ≡ some s
    → P s
unfolding scalar_of
scalar_of-All P name h e = find_scalar-All P scalars name h e

module _ (name : String) {s : Scalar} (found : scalar_of (some name) ≡ some s) where
  pub fits-eq : (v : Value) (kind : ParamKind) → fits v (some name) kind ≡ fits_scalar s v kind
  unfolding fits
  fits-eq v kind = rw (found, fits)

  pub key_bytes-eq : key_bytes (some name) ≡ some (if ltb 1 (s.bits / 8) then s.bits / 8 else 1)
  unfolding key_bytes
  key_bytes-eq = rw (found, key_bytes)

  pub is_integer-eq : is_integer (some name) ≡ is_signed s.kind || is_unsigned s.kind
  unfolding is_integer
  is_integer-eq = rw (found, is_integer)

-- A name that is in no row of the table is no type of any value.
pub fits-unknown :
    (name : String) (v : Value) (kind : ParamKind)
    → scalar_of (some name) ≡ none
    → fits v (some name) kind ≡ false
unfolding fits
fits-unknown name v kind e = rw (e, fits)

-- An integer as C converts it to a type of the table: its low bits, in two's complement if the type is
-- signed.
abbrev pub low_bits : ℕ → ℤ → ℕ
low_bits bits (pos n) = n % 2 ^ bits
low_bits bits (negsuc n) = 2 ^ bits - 1 - n % 2 ^ bits

abbrev pub signed_bits : ℕ → ℕ → ℤ
signed_bits bits u = if ltb u (2 ^ (bits - 1)) then pos u else negate_ℕ (2 ^ bits - u)

abbrev pub converted : Scalar → ℤ → ℤ
converted s v =
    if is_signed s.kind then signed_bits s.bits (low_bits s.bits v) else pos (low_bits s.bits v)

abbrev KeptAt : ParamKind → Scalar → ℤ → Type 0
KeptAt kind s v =
    is_signed s.kind || is_unsigned s.kind ≡ true
    → (fits_scalar s (Value.int v) kind ≡ true) ↔ (converted s v ≡ v)

abbrev IsKept : ParamKind → Scalar → Type 0
IsKept kind s = (v : ℤ) → KeptAt kind s v

by_sign :
    (kind : ParamKind) (s : Scalar)
    → ((n : ℕ) → KeptAt kind s (pos n))
    → ((n : ℕ) → KeptAt kind s (negsuc n))
    → IsKept kind s
by_sign kind s f g (pos n) = f n
by_sign kind s f g (negsuc n) = g n

scalars-IsKept : (kind : ParamKind) → All (IsKept kind) scalars
unfolding fits_scalar
scalars-IsKept kind = (
  (λ v h. cc),
  (
    by_sign kind (scalar "i8" Kind.signed 8) (λ n h. (λ a. ground arith, λ a. ground arith))
        (λ n h. (λ a. ground arith, λ a. ground arith)),
    (
      by_sign kind (scalar "i16" Kind.signed 16) (λ n h. (λ a. ground arith, λ a. ground arith))
          (λ n h. (λ a. ground arith, λ a. ground arith)),
      (
        by_sign kind (scalar "i32" Kind.signed 32) (λ n h. (λ a. ground arith, λ a. ground arith))
            (λ n h. (λ a. ground arith, λ a. ground arith)),
        (
          by_sign kind (scalar "i64" Kind.signed 64) (λ n h. (λ a. ground arith, λ a. ground arith))
              (λ n h. (λ a. ground arith, λ a. ground arith)),
          (
            by_sign kind (scalar "u8" Kind.unsigned 8)
                (λ n h. (λ a. ground arith, λ a. ground arith))
                (λ n h. (λ a. ground arith, λ a. ground arith)),
            (
              by_sign kind (scalar "u16" Kind.unsigned 16)
                  (λ n h. (λ a. ground arith, λ a. ground arith))
                  (λ n h. (λ a. ground arith, λ a. ground arith)),
              (
                by_sign kind (scalar "u32" Kind.unsigned 32)
                    (λ n h. (λ a. ground arith, λ a. ground arith))
                    (λ n h. (λ a. ground arith, λ a. ground arith)),
                (
                  by_sign kind (scalar "u64" Kind.unsigned 64)
                      (λ n h. (λ a. ground arith, λ a. ground arith))
                      (λ n h. (λ a. ground arith, λ a. ground arith)),
                  ((λ v h. cc), ((λ v h. cc), tt)),
                ),
              ),
            ),
          ),
        ),
      ),
    ),
  ),
)

-- `fits` accepts an integer for an integer type exactly if C's conversion to the type keeps it.
pub fits_iff_converted :
    (name : String) {s : Scalar} (v : ℤ) (kind : ParamKind)
    → scalar_of (some name) ≡ some s
    → is_integer (some name) ≡ true
    → (fits (Value.int v) (some name) kind ≡ true) ↔ (converted s v ≡ v)
fits_iff_converted name {s} v kind found i = rw (fits-eq name found (Value.int v) kind) (
    scalar_of-All (IsKept kind) name (scalars-IsKept kind) found v
      (sym (is_integer-eq name found) ∙ i))
