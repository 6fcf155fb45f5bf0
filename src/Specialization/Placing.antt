-- ===== src/Specialization/Placing.antt =====
-- specialization.py: where `_layout_fields` puts the key fields and the device slot.
pub mod Coverage
pub mod Alignment
use intj.Prelude.{
  ℕ, ◌+◌, ◌/◌, Bool, true, false, Option, none, some, List, [], ◌∷◌, map, enumerate_from, leb, ◌==◌,
  if◌then◌else◌,
}
use intj.Prelude.Int.{ℤ}
use intj.Prelude.Sort.{sort_by}
use intj.Annotation.{DeviceBinding, fixed, not_fixed, CacheKeyField}

-- A key field and the index of what it keys: a parameter's, or a negative one.
abbrev pub Entry : Type 0
Entry = ℤ × CacheKeyField

abbrev pub Numbered : Type 0
Numbered = ℕ × Entry

pub record Placement : Type 0 where
  pub fields : List Entry
  pub device_offset : Option ℕ
  pub nwords : ℕ

-- The order of `sorted(..., key=lambda item: -item[1][1].width)`.
abbrev pub widest_first : Numbered → Numbered → Bool
widest_first (_, (_, f)) (_, (_, g)) = leb g.width f.width

-- The loop of `_layout_fields`: the offsets by source index, and the offset behind the last field.
unfoldable pub assign_offsets : ℕ → List Numbered → List (ℕ × ℕ) × ℕ
assign_offsets offset [] = ([], offset)
assign_offsets offset ((source, (_, field)) ∷ rest) =
    let (offsets, end) = assign_offsets (offset + field.width) rest in
    ((source, offset) ∷ offsets, end)

unfoldable pub offset_at : List (ℕ × ℕ) → ℕ → Option ℕ
offset_at [] source = none
offset_at ((i, offset) ∷ rest) source = if i == source then some offset else offset_at rest source

-- `dataclasses.replace(field, offset=offsets[source_index])`
abbrev pub put : List (ℕ × ℕ) → Numbered → Entry
put offsets (source, (index, field)) = (index, record field { offset = offset_at offsets source })

abbrev pub is_keyed : DeviceBinding → Bool
is_keyed fixed = false
is_keyed not_fixed = true

-- `_layout_fields`
unfoldable pub layout_fields : List Entry → DeviceBinding → Placement
unfolding assign_offsets offset_at sort_by
layout_fields fields device_binding =
    let numbered = enumerate_from 0 fields in
    let (offsets, end) = assign_offsets 0 (sort_by widest_first numbered) in
    record {
      fields = map (put offsets) numbered;
      device_offset = if is_keyed device_binding then some end else none;
      nwords = ((if is_keyed device_binding then end + 1 else end) + 7) / 8;
    }
