-- ===== src/ScalarTypes/Payload.antt =====
-- About scalar_types.py, `fits` and `key_bytes`: the bytes that a constexpr of a type is keyed by.
use intj.Prelude.{
  ℕ, ◌-◌, ◌%◌, ◌/◌, ◌^◌, String, ◌≡◌, sym, subst, ◌∙◌, true, some, All, arith, ltb, inl, inr,
  some-inj, Option-cases, if◌then◌else◌,
}
use intj.Prelude.Int.{ℤ, pos, negsuc}
use intj.Values.{Value}
use intj.ScalarTypes.{Scalar, scalars, ParamKind, scalar_of, key_bytes, fits_scalar, fits}
use intj.ScalarTypes.Fits.{scalar_of-All, fits-eq, fits-unknown, key_bytes-eq}

-- The low `bytes` bytes of an integer in two's complement.
abbrev pub low_bytes : ℕ → ℤ → ℕ
low_bytes bytes (pos n) = n % 256 ^ bytes
low_bytes bytes (negsuc n) = 256 ^ bytes - 1 - n % 256 ^ bytes

abbrev bytes_of : Scalar → ℕ
bytes_of s = if ltb 1 (s.bits / 8) then s.bits / 8 else 1

abbrev Separates : ParamKind → Scalar → Type 0
Separates kind s =
    (v w : ℤ)
    → fits_scalar s (Value.int v) kind ≡ true
    → fits_scalar s (Value.int w) kind ≡ true
    → low_bytes (bytes_of s) v ≡ low_bytes (bytes_of s) w
    → v ≡ w

scalars-Separates : (kind : ParamKind) → All (Separates kind) scalars
unfolding fits_scalar
scalars-Separates kind = (
  (λ v w a b e. cc),
  (
    (λ v w a b e. ground arith),
    (
      (λ v w a b e. ground arith),
      (
        (λ v w a b e. ground arith),
        (
          (λ v w a b e. ground arith),
          (
            (λ v w a b e. ground arith),
            (
              (λ v w a b e. ground arith),
              (
                (λ v w a b e. ground arith),
                ((λ v w a b e. ground arith), ((λ v w a b e. cc), ((λ v w a b e. cc), tt))),
              ),
            ),
          ),
        ),
      ),
    ),
  ),
)

-- Two integers that fit one type and have the same payload bytes in the key are the same.
pub payload-separates :
    (kind : ParamKind) (name : String) (v w : ℤ) {bytes : ℕ}
    → key_bytes (some name) ≡ some bytes
    → fits (Value.int v) (some name) kind ≡ true
    → fits (Value.int w) (some name) kind ≡ true
    → low_bytes bytes v ≡ low_bytes bytes w
    → v ≡ w
payload-separates kind name v w k a b e = elim (Option-cases (scalar_of (some name))) [
  | inl unknown ↦ cc (fits-unknown name (Value.int v) kind unknown)
  | inr (s, found) ↦
      scalar_of-All (Separates kind) name (scalars-Separates kind) found v w
        (rw (fits-eq name found) at a) (rw (fits-eq name found) at b)
        (subst (λ n. low_bytes n v ≡ low_bytes n w) (some-inj _ _ (sym k ∙ key_bytes-eq name found))
          e)
]
