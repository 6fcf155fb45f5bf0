-- ===== src/Specialization/KeyFields/Widths.antt =====
-- About specialization.py, `_cache_key_fields`: the widths of the fields.
use intj.Prelude.{
  ℕ, ◌/◌, String, ◌≡◌, refl, sym, subst, ◌∙◌, ◌⊎◌, inl, inr, Bool, true, false, Option, none, some,
  List, [], ◌∷◌, ◌||◌, All, All-append, Result, ok, ltb, if◌then◌else◌, arith, max, Option-cases,
  some-inj, Bool-cases,
}
use intj.ScalarTypes.{Scalar, scalars, scalar_of, key_bytes}
use intj.ScalarTypes.Fits.{scalar_of-All, key_bytes-eq}
use intj.Annotation.{
  FieldKind, descriptor, payload, exact_kind, exact, unplaced, is_some, CacheKeyField,
  CanonicalAnnotation,
}
use intj.ScalarTypes.{is_argument}
use intj.Specialization.KeyFields.{
  LayoutError, widest, cache_key_fields, constexpr_fields, argument_fields, field_if, several,
  only_none,
}
use intj.Specialization.Placing.Alignment.{IsWidth}

abbrev pub IsWide : CacheKeyField → Type 0
IsWide f = IsWidth f.width

-- A type is None or a name of the scalar table.
abbrev pub IsKnown : Option String → Type 0
IsKnown ty = (bytes : ℕ) × (key_bytes ty ≡ some bytes)

-- A nonempty tuple of known types, or no restriction.
abbrev pub AreKnown : Option (List (Option String)) → Type 0
AreKnown none = Unit
AreKnown (some []) = ⊥
AreKnown (some (ty ∷ types)) = IsKnown ty × All IsKnown types

abbrev pub IsBytes : ℕ → Type 0
IsBytes n = (n ≡ 0) ⊎ IsWidth n

scalars-IsWidth :
    All (λ (s : Scalar). IsWidth (if ltb 1 (s.bits / 8) then s.bits / 8 else 1)) scalars
scalars-IsWidth = (
  ground arith,
  (
    ground arith,
    (
      ground arith,
      (
        ground arith,
        (
          ground arith,
          (
            ground arith,
            (ground arith, (ground arith, (ground arith, (ground arith, (ground arith, tt))))),
          ),
        ),
      ),
    ),
  ),
)

pub key_bytes-unknown :
    (name : String) → scalar_of (some name) ≡ none → key_bytes (some name) ≡ none
unfolding key_bytes
key_bytes-unknown name unknown = rw (unknown, key_bytes)

pub key_bytes-IsBytes : (ty : Option String) {bytes : ℕ} → key_bytes ty ≡ some bytes → IsBytes bytes
unfolding key_bytes
key_bytes-IsBytes none e = inl (sym (some-inj _ _ e))
key_bytes-IsBytes (some name) e = elim (Option-cases (scalar_of (some name))) [
  | inl unknown ↦ cc (key_bytes-unknown name unknown)
  | inr (s, found) ↦ subst IsBytes (some-inj _ _ (sym (key_bytes-eq name found) ∙ e)) (
      inr (
        scalar_of-All (λ s. IsWidth (if ltb 1 (s.bits / 8) then s.bits / 8 else 1)) name
          scalars-IsWidth found))
]

max_cases : (a b : ℕ) → (max a b ≡ a) ⊎ (max a b ≡ b)
max_cases a b = grind arith

pub max-IsBytes : (a b : ℕ) → IsBytes a → IsBytes b → IsBytes (max a b)
max-IsBytes a b p q = elim (max_cases a b) [
  | inl e ↦ subst IsBytes (sym e) p
  | inr e ↦ subst IsBytes (sym e) q
]

widest-IsBytes :
    (ty : Option String) (types : List (Option String))
    → IsKnown ty
    → All IsKnown types
    → (width : ℕ) × (widest (ty ∷ types) ≡ ok width) × IsBytes width
unfolding widest
widest-IsBytes ty [] k ks = (k.0, rw (k.1, widest), key_bytes-IsBytes ty k.1)
widest-IsBytes ty (u ∷ types) k ks =
    let (width, e, b) = widest-IsBytes u types ks.0 ks.1 in
    (max k.0 width, ground (arith, k.1, e), max-IsBytes k.0 width (key_bytes-IsBytes ty k.1) b)

-- The fields are there, and each one is of a machine word's width.
abbrev pub AreWide : Result LayoutError (List CacheKeyField) → Type 0
AreWide r = (fields : List CacheKeyField) × (r ≡ ok fields) × All IsWide fields

field_if-IsWide :
    (test : Bool) (kind : FieldKind) (width : ℕ)
    → (test ≡ true → IsWidth width)
    → All IsWide (field_if test kind width)
field_if-IsWide true kind width h = (h refl, tt)
field_if-IsWide false kind width h = tt

one-IsWidth : IsWidth 1
one-IsWidth = inl refl

eight-IsWidth : IsWidth 8
eight-IsWidth = inr (inr (inr refl))

IsBytes-pos : (width : ℕ) → IsBytes width → ltb 0 width ≡ true → IsWidth width
IsBytes-pos width b h = ground arith

constexpr_fields-AreWide :
    (types : Option (List (Option String))) → AreKnown types → AreWide (constexpr_fields types)
unfolding constexpr_fields
constexpr_fields-AreWide none k = (_, refl, (one-IsWidth, (eight-IsWidth, tt)))
constexpr_fields-AreWide (some []) k = absurd k
constexpr_fields-AreWide (some (ty ∷ types)) k =
    let (width, e, b) = widest-IsBytes ty types k.0 k.1 in
    elim (Bool-cases (only_none (ty ∷ types))) [
      | inl nothing ↦ rw nothing ([], refl, tt)
      | inr something ↦
          rw (something, e)
            (
              _,
              refl,
              All-append IsWide (field_if (several (ty ∷ types)) descriptor 1)
                  (field_if (ltb 0 width) payload width)
                  (field_if-IsWide (several (ty ∷ types)) descriptor 1 (λ _. one-IsWidth))
                  (field_if-IsWide (ltb 0 width) payload width (IsBytes-pos width b)),
            )
    ]

exact_fields-IsWide :
    (exact_key : Bool)
    → All IsWide (if exact_key then unplaced exact_kind 1 ∷ unplaced exact 8 ∷ [] else [])
exact_fields-IsWide true = (one-IsWidth, (eight-IsWidth, tt))
exact_fields-IsWide false = tt

argument_fields-IsWide : (a : CanonicalAnnotation) → All IsWide (argument_fields a)
unfolding argument_fields
argument_fields-IsWide a =
    All-append IsWide _ (if a.exact_key then unplaced exact_kind 1 ∷ unplaced exact 8 ∷ [] else [])
      (field_if-IsWide _ descriptor 1 (λ _. one-IsWidth)) (exact_fields-IsWide a.exact_key)

if-AreWide :
    (test : Bool) {x y : Result LayoutError (List CacheKeyField)}
    → AreWide x
    → AreWide y
    → AreWide (if test then x else y)
if-AreWide true h k = h
if-AreWide false h k = k

-- The types of a constexpr are known. Those of an argument are not asked for.
abbrev pub IsKeyable : CanonicalAnnotation → Type 0
IsKeyable a = is_argument a.kind ≡ false → AreKnown a.types

-- An annotation whose types are known, if it is a constexpr's, has its key fields, each 1, 2, 4 or 8
-- bytes wide.
pub cache_key_fields-AreWide :
    (a : CanonicalAnnotation) → IsKeyable a → AreWide (cache_key_fields a)
unfolding cache_key_fields
cache_key_fields-AreWide a k =
    if-AreWide (a.tuned || is_some a.baked_value || is_some a.bind_value) ([], refl, tt)
      (elim (Bool-cases (is_argument a.kind)) [
        | inl passed ↦ rw passed (argument_fields a, refl, argument_fields-IsWide a)
        | inr constant ↦ rw constant (
            if-AreWide a.power_of_two_or_zero (_, refl, (one-IsWidth, tt))
              (constexpr_fields-AreWide a.types (k constant)))
      ])
