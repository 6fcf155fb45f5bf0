-- ===== src/Specialization/KeyFields/Separates.antt =====
-- About specialization.py, `_cache_key_fields`: what the bytes of a constexpr tell apart.
use intj.Prelude.{
  ℕ, ◌/◌, ◌≤◌, ◌<◌, String, ◌≡◌, refl, sym, subst, ◌∙◌, inl, inr, Bool, true, false, Option, none,
  some, List, [], ◌∷◌, ◌++◌, ◌||◌, All, All-mono, ok, bind_elim, ok-inj, arith, ltb, max,
  if◌then◌else◌, Option-cases, some-inj,
}
use intj.Prelude.Int.{ℤ, pos, negsuc}
use intj.Values.{Value}
use intj.ScalarTypes.{ParamKind, fits, is_argument, key_bytes, scalar_of}
use intj.ScalarTypes.Payload.{low_bytes, payload-separates}
use intj.Annotation.{descriptor, payload, is_some, CacheKeyField, CanonicalAnnotation}
use intj.Specialization.KeyFields.{
  widest, cache_key_fields, constexpr_fields, several, only_none, field_if,
}
use intj.Specialization.KeyFields.Widths.{
  IsBytes, key_bytes-IsBytes, max-IsBytes, key_bytes-unknown,
}
use intj.ScalarTypes.Fits.{key_bytes-eq}

low_bytes-weaken :
    (b w : ℕ) (x y : ℤ)
    → IsBytes b
    → IsBytes w
    → b ≤ w
    → low_bytes w x ≡ low_bytes w y
    → low_bytes b x ≡ low_bytes b y
low_bytes-weaken b w (pos n) (pos m) hb hw h e = ground arith
low_bytes-weaken b w (pos n) (negsuc m) hb hw h e = ground arith
low_bytes-weaken b w (negsuc n) (pos m) hb hw h e = ground arith
low_bytes-weaken b w (negsuc n) (negsuc m) hb hw h e = ground arith

-- A type has a number of bytes, which is within the width.
abbrev IsWithin : ℕ → Option String → Type 0
IsWithin width ty = (bytes : ℕ) × (key_bytes ty ≡ some bytes) × (bytes ≤ width)

within_lem :
    (ty : Option String) (bytes : ℕ) {width : ℕ}
    → key_bytes ty ≡ some bytes
    → bytes ≡ width
    → IsBytes width × IsWithin width ty
within_lem ty bytes {width} e h =
    (subst IsBytes h (key_bytes-IsBytes ty e), (bytes, e, omega arith))

-- The width of a list of types is at least that of each one, and a machine word's.
widest-IsWithin :
    (types : List (Option String)) {width : ℕ}
    → widest types ≡ ok width
    → IsBytes width × All (IsWithin width) types
unfolding widest
widest-IsWithin [] h = cc
widest-IsWithin (ty ∷ []) {width} h = elim (Option-cases (key_bytes ty)) [
  | inl missing ↦ cc (rw (missing, widest) at h)
  | inr (bytes, e) ↦
      let (b, own) = within_lem ty bytes {width = width} e (ok-inj (rw (e, widest) at h)) in
      (b, (own, tt))
]
widest-IsWithin (ty ∷ other ∷ types) {width} h = elim (Option-cases (key_bytes ty)) [
  | inl missing ↦ cc (rw (missing, widest) at h)
  | inr (bytes, e) ↦ bind_elim (widest (other ∷ types)) _ (rw (e, widest) at h) λ others ho last.
      let (b, rest) = widest-IsWithin (other ∷ types) {width = others} ho in
      let is_max : max bytes others ≡ width = ok-inj last in
      (
        subst IsBytes is_max (max-IsBytes bytes others (key_bytes-IsBytes ty e) b),
        (
          (bytes, e, grind arith),
          All-mono (IsWithin others) (IsWithin width) (other ∷ types)
              (λ x within. (within.0, within.1, wider bytes others within.0 is_max within.2)) rest,
        ),
      )
]
  where
    wider : (a b c : ℕ) → max a b ≡ width → c ≤ b → c ≤ width
    wider a b c e h = grind arith

-- The payload bytes of two values are the same.
abbrev pub AgreeOn : ℤ → ℤ → List CacheKeyField → Type 0
AgreeOn v w fields = All (λ f. f.kind ≡ payload → low_bytes f.width v ≡ low_bytes f.width w) fields

All-middle :
    {A : Type 0} (P : A → Type 0) (before : List A) (x : A) (after : List A)
    → All P (before ++ x ∷ after)
    → P x
All-middle P [] x after h = h.0
All-middle P (y ∷ before) x after h = All-middle P before x after h.1

payload_lem :
    (test : Bool) (width : ℕ) (v w : ℤ)
    → ltb 0 width ≡ true
    → AgreeOn v w (field_if test descriptor 1 ++ field_if (ltb 0 width) payload width)
    → low_bytes width v ≡ low_bytes width w
payload_lem true width v w wide h = (rw wide at h).1.0 refl
payload_lem false width v w wide h = (rw wide at h).0 refl

key_bytes-pos : (name : String) {bytes : ℕ} → key_bytes (some name) ≡ some bytes → 0 < bytes
key_bytes-pos name e = elim (Option-cases (scalar_of (some name))) [
  | inl unknown ↦ cc (key_bytes-unknown name unknown)
  | inr (s, found) ↦
      subst (λ n. 0 < n) (some-inj _ _ (sym (key_bytes-eq name found) ∙ e))
        (one_or_more (s.bits / 8))
]
  where
    one_or_more : (n : ℕ) → 0 < (if ltb 1 n then n else 1)
    one_or_more n = ground arith

only_none-false :
    (before : List (Option String)) (ty : String) (after : List (Option String))
    → only_none (before ++ some ty ∷ after) ≡ false
only_none-false [] ty after = refl
only_none-false (none ∷ []) ty after = refl
only_none-false (none ∷ t ∷ ts) ty after = refl
only_none-false (some t ∷ ts) ty after = refl

-- A constexpr that is keyed by its value, of a restricted set of types: two integers of one of the types
-- whose bytes in all its payload fields are the same are equal.
pub cache_key_fields-separates :
    (a : CanonicalAnnotation) (before after : List (Option String)) (ty : String)
    (fields : List CacheKeyField) (kind : ParamKind) (v w : ℤ)
    → a.tuned || is_some a.baked_value || is_some a.bind_value ≡ false
    → is_argument a.kind ≡ false
    → a.power_of_two_or_zero ≡ false
    → a.types ≡ some (before ++ some ty ∷ after)
    → cache_key_fields a ≡ ok fields
    → fits (Value.int v) (some ty) kind ≡ true
    → fits (Value.int w) (some ty) kind ≡ true
    → AgreeOn v w fields
    → v ≡ w
unfolding cache_key_fields constexpr_fields
cache_key_fields-separates a before after ty fields kind v w given constant free types e fv fw
      agree =
    let types_of = before ++ some ty ∷ after in
    let e1 = rw (given, constant, free, types) at e in
    let e2 = rw (only_none-false before ty after) at e1 in
    bind_elim (widest types_of) _ e2 λ width hw last.
      let (b, all) = widest-IsWithin types_of {width = width} hw in
      let (bytes, is_bytes, within) = All-middle (IsWithin width) before (some ty) after all in
      payload-separates kind ty v w {bytes = bytes} is_bytes fv fw (
        low_bytes-weaken bytes width v w (key_bytes-IsBytes (some ty) is_bytes) b within (
          payload_lem (several types_of) width v w
            (ground (arith, key_bytes-pos ty {bytes = bytes} is_bytes))
            (subst (AgreeOn v w) (sym (ok-inj last)) agree)))
