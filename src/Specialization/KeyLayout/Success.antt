-- ===== src/Specialization/KeyLayout/Success.antt =====
-- About specialization.py, `key_layout`: its lookups of placed offsets.
use intj.Prelude.{
  ℕ, zero, suc, ◌+◌, ◌<◌, ◌≤◌, ◌≡◌, refl, ap, ◌∙◌, Bool, true, ◌&&◌, ◌||◌, some, List, [], ◌∷◌,
  ◌++◌, map, any, All, All-append, enumerate_from, range_from, concat_map, String, ok, arith, ◌==◌,
  Bool-cases, Option-cases, inl, inr,
}
use intj.Prelude.Int.{ℤ, pos, negsuc, eqb_ℤ}
use intj.Prelude.Dict.{Dict}
use intj.Annotation.Merge.{RawAnnotation, KernelParam}
use intj.Annotation.Resolve.{merge_annotations}
use intj.Annotation.Built.{IsBuilt}
use intj.Annotation.Keyable.{merge_annotations-IsKeyable}
use intj.Annotation.{
  ResolvedParam, DeviceBinding, FieldKind, descriptor, payload, CacheKeyField, unplaced,
  CanonicalAnnotation,
}
use intj.Specialization.KeyFields.{is_public, dynamic_key_fields}
use intj.Specialization.KeyFields.Widths.{IsWide, IsKeyable, cache_key_fields-AreWide}
use intj.Specialization.Placing.{Entry, put, layout_fields}
use intj.Specialization.Placing.Alignment.{IsWidth, HasWidth, IsAligned, layout_fields-IsAligned}
use intj.Specialization.Calls.{Param, next_if, takes_objects, call_layout_from, call_layout}
use intj.Specialization.KeyLayout.{
  KeyLayout, entries, param_fields, computed_key_fields, dynamic_fields, same_kind, is_negative,
  placed, computed_offsets, layout_of, key_layout,
}

-- The fields of one index have their widths.
entries-HasWidth :
    (index : ℤ) (fields : List CacheKeyField)
    → All IsWide fields
    → All HasWidth (entries index fields)
entries-HasWidth index [] h = tt
entries-HasWidth index (f ∷ fields) h = (h.0, entries-HasWidth index fields h.1)

pub param_fields-AreWide :
    (call : List Param)
    → All (λ p. IsKeyable p.annotation) call
    → (fields : List Entry) × (param_fields call ≡ ok fields) × All HasWidth fields
unfolding param_fields
param_fields-AreWide [] h = ([], refl, tt)
param_fields-AreWide (p ∷ rest) h =
    let (fields, own, wide) = cache_key_fields-AreWide p.annotation h.0 in
    let (others, theirs, wide') = param_fields-AreWide rest h.1 in
    (
      entries (pos p.index) fields ++ others,
      rw (own, theirs) refl,
      All-append HasWidth (entries (pos p.index) fields) others
          (entries-HasWidth (pos p.index) fields wide) wide',
    )

one-byte : IsWidth 1
one-byte = inl refl

eight-bytes : IsWidth 8
eight-bytes = inr (inr (inr refl))

concat_map-HasWidth :
    {A : Type 0} (f : A → List Entry) (xs : List A)
    → ((x : A) → All HasWidth (f x))
    → All HasWidth (concat_map f xs)
concat_map-HasWidth f [] h = tt
concat_map-HasWidth f (x ∷ xs) h =
    All-append HasWidth (f x) (concat_map f xs) (h x) (concat_map-HasWidth f xs h)

pub computed_key_fields-HasWidth : (count : ℕ) → All HasWidth (computed_key_fields count)
computed_key_fields-HasWidth count =
    concat_map-HasWidth (λ j. entries (negsuc j) (unplaced payload 8 ∷ unplaced descriptor 1 ∷ []))
      (range_from 0 count) (λ j. (eight-bytes, (one-byte, tt)))

pub dynamic_fields-HasWidth :
    (count : ℕ) (names : List String) → All HasWidth (dynamic_fields count names)
dynamic_fields-HasWidth count names =
    concat_map-HasWidth (λ e. entries (negsuc (count + e.0)) (dynamic_key_fields e.1))
      (enumerate_from 0 names) (λ e. (one-byte, (eight-bytes, tt)))

-- A field of a negative index and a kind.
abbrev pub is_key : ℤ → FieldKind → Entry → Bool
is_key index kind e = is_negative e.0 && (eqb_ℤ e.0 index && same_kind e.1.kind kind)

-- A field that is there and is placed is found.
pub placed-found :
    (fields : List Entry) (index : ℤ) (kind : FieldKind)
    → All IsAligned fields
    → any (is_key index kind) fields ≡ true
    → (offset : ℕ) × (placed fields index kind ≡ some offset)
unfolding placed
placed-found [] index kind h there = cc
placed-found ((i, f) ∷ rest) index kind h there = elim (Option-cases (placed rest index kind)) [
  | inr (offset, later) ↦ (offset, rw later refl)
  | inl absent ↦ elim (Bool-cases (is_key index kind (i, f))) [
    | inl hit ↦ (h.0.0, rw (absent, hit) h.0.1)
    | inr miss ↦ cc ((placed-found rest index kind h.1 (rw miss at there)).1)
  ]
]

pub any-append : (p : Entry → Bool) (xs ys : List Entry) → any p (xs ++ ys) ≡ any p xs || any p ys
any-append p [] ys = refl
any-append p (x ∷ xs) ys = ground (arith, any-append p xs ys)

-- Placing changes neither the index nor the kind of a field.
any-put :
    (index : ℤ) (kind : FieldKind) (offsets : List (ℕ × ℕ)) (n : ℕ) (fields : List Entry)
    → any (is_key index kind) (map (put offsets) (enumerate_from n fields))
      ≡ any (is_key index kind) fields
any-put index kind offsets n [] = refl
any-put index kind offsets n ((i, f) ∷ fields) =
    ap (λ b. is_key index kind (i, f) || b) (any-put index kind offsets (suc n) fields)

pub layout_fields-keeps :
    (index : ℤ) (kind : FieldKind) (fields : List Entry) (binding : DeviceBinding)
    → any (is_key index kind) (layout_fields fields binding).fields ≡ any (is_key index kind) fields
unfolding layout_fields
layout_fields-keeps index kind fields binding = any-put index kind _ 0 fields

-- The two fields of a computed key.
abbrev pair : ℕ → List Entry
pair j = entries (negsuc j) (unplaced payload 8 ∷ unplaced descriptor 1 ∷ [])

-- Both fields of computed key `j` are among the fields.
abbrev HasPair : List Entry → ℕ → Type 0
HasPair fields j =
    (any (is_key (negsuc j) payload) fields ≡ true)
    × (any (is_key (negsuc j) descriptor) fields ≡ true)

pairs-HasPair :
    (first count j : ℕ)
    → first ≤ j
    → j < first + count
    → HasPair (concat_map pair (range_from first count)) j
pairs-HasPair first zero j h k = absurd (omega arith)
pairs-HasPair first (suc count) j h k = elim (Bool-cases (first == j)) [
  | inl hit ↦ (ground arith, ground arith)
  | inr miss ↦
      let (value, kind) = pairs-HasPair (suc first) count j (ground arith) (omega arith) in
      (ground (arith, value), ground (arith, kind))
]

range_from-All :
    (P : ℕ → Type 0) (first count : ℕ)
    → ((j : ℕ) → first ≤ j → j < first + count → P j)
    → All P (range_from first count)
range_from-All P first zero h = tt
range_from-All P first (suc count) h = (
  h first (omega arith) (omega arith),
  range_from-All P (suc first) count (λ j a b. h j (omega arith) (omega arith)),
)

-- A field that is there stays there when others are put around it.
any-between :
    (p : Entry → Bool) (before fields after : List Entry)
    → any p fields ≡ true
    → any p (before ++ fields ++ after) ≡ true
any-between p before fields after h =
    any-append p (before ++ fields) after ∙ ground (arith, any-append p before fields, h)

computed_offsets-found :
    (fields : List Entry) (js : List ℕ)
    → All IsAligned fields
    → All (HasPair fields) js
    → (offsets : List (ℕ × ℕ)) × (computed_offsets fields js ≡ ok offsets)
unfolding computed_offsets
computed_offsets-found fields [] aligned h = ([], refl)
computed_offsets-found fields (j ∷ js) aligned h =
    let (value, is_value) = placed-found fields (negsuc j) payload aligned h.0.0 in
    let (kind, is_kind) = placed-found fields (negsuc j) descriptor aligned h.0.1 in
    let (others, are_others) = computed_offsets-found fields js aligned h.1 in
    ((value, kind) ∷ others, rw (is_value, is_kind, are_others) refl)

-- A call whose annotations can be placed has a key layout, with any number of computed keys and any
-- dynamic values.
pub key_layout-succeeds :
    (call : List Param) (binding : DeviceBinding) (computed0 : ℕ) (dynamic : List String)
    → All (λ p. IsKeyable p.annotation) call
    → (layout : KeyLayout) × (key_layout call binding computed0 dynamic ≡ ok layout)
unfolding key_layout
key_layout-succeeds call binding computed0 dynamic keyable =
    let (fields, are_fields, wide) = param_fields-AreWide call keyable in
    let computed = computed_key_fields computed0 in
    let others = dynamic_fields computed0 dynamic in
    let all_fields = fields ++ computed ++ others in
    let aligned = layout_fields-IsAligned all_fields binding (
      All-append HasWidth (fields ++ computed) others
        (All-append HasWidth fields computed wide (computed_key_fields-HasWidth computed0))
        (dynamic_fields-HasWidth computed0 dynamic)) in
    let there : (j : ℕ)
        → 0 ≤ j
        → j < 0 + computed0
        → HasPair (layout_fields all_fields binding).fields j =
      λ j a b.
        let (value, kind) = pairs-HasPair 0 computed0 j a b in
        (
          layout_fields-keeps (negsuc j) payload all_fields binding
              ∙ any-between (is_key (negsuc j) payload) fields computed others value,
          layout_fields-keeps (negsuc j) descriptor all_fields binding
              ∙ any-between (is_key (negsuc j) descriptor) fields computed others kind,
        ) in
    let (offsets, are_offsets) =
      computed_offsets-found (layout_fields all_fields binding).fields (range_from 0 computed0)
        aligned
        (range_from-All (HasPair (layout_fields all_fields binding).fields) 0 computed0 there) in
    (
      layout_of call computed0 dynamic (layout_fields all_fields binding) offsets,
      rw (are_fields, are_offsets) refl,
    )

-- `call_layout` changes no annotation.
pub call_layout_from-All :
    (P : CanonicalAnnotation → Type 0) (call_index memo : ℕ) (resolved : List ResolvedParam)
    → All (λ r. P r.annotation) resolved
    → All (λ p. P p.annotation) (call_layout_from call_index memo resolved)
unfolding call_layout_from
call_layout_from-All P call_index memo [] h = tt
call_layout_from-All P call_index memo (r ∷ rest) h = (
  h.0,
  call_layout_from-All P (next_if (is_public r.annotation) call_index)
      (next_if (takes_objects r.annotation) memo) rest h.1,
)

-- If the merge of the annotations of a kernel's parameters succeeds, where `Constexpr` objects come from
-- their constructor, the call of these parameters has a key layout.
pub merge_annotations-key_layout :
    (fp_types : List String) (params : List KernelParam) (extra : Dict RawAnnotation)
    (resolved : List ResolvedParam) (binding : DeviceBinding) (computed0 : ℕ)
    (dynamic : List String)
    → All (λ p. IsBuilt p.annotation) params
    → All (λ e. IsBuilt e.1) extra
    → merge_annotations fp_types params extra ≡ ok resolved
    → (layout : KeyLayout) × (key_layout (call_layout resolved) binding computed0 dynamic
        ≡ ok layout)
unfolding call_layout
merge_annotations-key_layout fp_types params extra resolved binding computed0 dynamic b c e =
    key_layout-succeeds (call_layout resolved) binding computed0 dynamic (
      call_layout_from-All IsKeyable 0 0 resolved
        (merge_annotations-IsKeyable fp_types params extra b c e))
