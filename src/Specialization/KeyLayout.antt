-- ===== src/Specialization/KeyLayout.antt =====
-- specialization.py: `key_layout`, which places the fields of the parameters, the level-0 computed keys
-- and the dynamic values, with the records `KeyLayout` and `DynamicSlot`.
pub mod Dynamic
pub mod Success
use intj.Prelude.{
  ℕ, suc, ◌+◌, String, Bool, true, false, ◌&&◌, Option, none, some, List, [], ◌∷◌, ◌++◌, map,
  length, filter, enumerate_from, range_from, concat_map, Result, ok, err, ◌>>=◌, leb,
  if◌then◌else◌,
}
use intj.Prelude.Int.{ℤ, pos, negsuc, eqb_ℤ}
use intj.Prelude.Sort.{sort_by}
use intj.Annotation.{
  DeviceBinding, FieldKind, descriptor, payload, exact_kind, exact, CacheKeyField, unplaced,
  is_some,
}
use intj.Specialization.KeyFields.{LayoutError, not_placed, cache_key_fields, dynamic_key_fields}
use intj.Specialization.Placing.{Entry, Placement, layout_fields}
use intj.Specialization.Calls.{Param}

pub record DynamicSlot : Type 0 where
  pub name : String
  pub value_offset : Option ℕ
  pub kind_offset : Option ℕ
  pub memo : ℕ

pub record KeyLayout : Type 0 where
  pub params : List Param
  pub device_offset : Option ℕ
  pub nwords : ℕ
  pub computed_fields : List (ℕ × ℕ)
  pub dynamic : List DynamicSlot

abbrev pub entries : ℤ → List CacheKeyField → List Entry
entries index fields = map (λ f. (index, f)) fields

-- The fields of the parameters, in call order.
unfoldable pub param_fields : List Param → Result LayoutError (List Entry)
param_fields [] = ok []
param_fields (p ∷ rest) = do
  fields ← cache_key_fields p.annotation
  others ← param_fields rest
  ok (entries (pos p.index) fields ++ others)

-- `-1 - j` is the index of the computed key `j`.
abbrev pub computed_key_fields : ℕ → List Entry
computed_key_fields computed0 =
    concat_map (λ j. entries (negsuc j) (unplaced payload 8 ∷ unplaced descriptor 1 ∷ []))
      (range_from 0 computed0)

-- `-1 - computed0 - j` is the index of the dynamic value `j`.
abbrev pub dynamic_fields : ℕ → List String → List Entry
dynamic_fields computed0 dynamic =
    concat_map (λ e. entries (negsuc (computed0 + e.0)) (dynamic_key_fields e.1))
      (enumerate_from 0 dynamic)

abbrev pub same_kind : FieldKind → FieldKind → Bool
same_kind descriptor descriptor = true
same_kind payload payload = true
same_kind exact_kind exact_kind = true
same_kind exact exact = true
same_kind _ _ = false

abbrev pub is_negative : ℤ → Bool
is_negative (negsuc n) = true
is_negative (pos n) = false

-- The dict `placed`, from (index, kind) to the offset: of two entries the later one counts.
unfoldable pub placed : List Entry → ℤ → FieldKind → Option ℕ
placed [] index kind = none
placed ((i, f) ∷ rest) index kind =
    let later = placed rest index kind in
    if is_some later
    then later
    else if is_negative i && (eqb_ℤ i index && same_kind f.kind kind)
    then f.offset
    else none

-- `placed[key]`
abbrev pub demand : Option ℕ → Result LayoutError ℕ
demand none = err not_placed
demand (some offset) = ok offset

unfoldable pub computed_offsets : List Entry → List ℕ → Result LayoutError (List (ℕ × ℕ))
computed_offsets fields [] = ok []
computed_offsets fields (j ∷ rest) = do
  value ← demand (placed fields (negsuc j) payload)
  kind ← demand (placed fields (negsuc j) descriptor)
  others ← computed_offsets fields rest
  ok ((value, kind) ∷ others)

abbrev rank : CacheKeyField → ℕ
rank f = elim f.offset [ none ↦ 0 | some n ↦ suc n ]

-- The order of `sorted(..., key=lambda f: f.offset)`, where -1 comes first.
abbrev pub by_offset : CacheKeyField → CacheKeyField → Bool
by_offset f g = leb (rank f) (rank g)

abbrev pub at_index : ℤ → List Entry → List CacheKeyField
at_index index fields = map (λ e. e.1) (filter (λ e. eqb_ℤ e.0 index) fields)

abbrev pub place_param : List Entry → Param → Param
place_param fields p = record p {
  annotation = record p.annotation {
    key_fields = sort_by by_offset (at_index (pos p.index) fields);
  };
}

-- `sum(p.memo is not None for p in call)`
abbrev pub memos : List Param → ℕ
memos call = length (filter (λ p. is_some p.memo) call)

abbrev pub slot : List Entry → (computed0 memo : ℕ) → ℕ × String → DynamicSlot
slot fields computed0 memo (j, name) = record {
  name = name;
  value_offset = placed fields (negsuc (computed0 + j)) exact;
  kind_offset = placed fields (negsuc (computed0 + j)) exact_kind;
  memo = memo + j;
}

-- The value that `key_layout` returns.
abbrev pub layout_of :
    List Param → (computed0 : ℕ) → (dynamic : List String) → Placement → List (ℕ × ℕ) → KeyLayout
layout_of call computed0 dynamic placement computed_fields = record {
  params = map (place_param placement.fields) call;
  device_offset = placement.device_offset;
  nwords = placement.nwords;
  computed_fields = computed_fields;
  dynamic = map (slot placement.fields computed0 (memos call)) (enumerate_from 0 dynamic);
}

unfoldable pub key_layout :
    List Param
    → DeviceBinding
    → (computed0 : ℕ) → (dynamic : List String) → Result LayoutError KeyLayout
unfolding sort_by
key_layout call device_binding computed0 dynamic = do
  fields ← param_fields call
  let all = fields ++ computed_key_fields computed0 ++ dynamic_fields computed0 dynamic
  let placement = layout_fields all device_binding
  computed_fields ← computed_offsets placement.fields (range_from 0 computed0)
  ok (layout_of call computed0 dynamic placement computed_fields)
