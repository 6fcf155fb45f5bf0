-- ===== src/Specialization/Placing/Coverage.antt =====
-- About specialization.py, `_layout_fields`: which bytes of the key the fields take.
use mathlib.Core.Path.{ap₂}
use intj.Prelude.{
  ℕ, suc, ◌+◌, ◌*◌, ◌≤◌, ◌<◌, ◌≡◌, ◌≢◌, refl, sym, ap, ◌∙◌, Bool, true, false, ◌&&◌, none, some,
  List, [], ◌∷◌, map, All, enumerate_from, leb, ltb, if◌then◌else◌, arith, Bool-cases, inl, inr,
}
use intj.Prelude.Sort.{insert_by, sort_by, insert_by-All, sort_by-All}
use intj.Annotation.{DeviceBinding, CacheKeyField}
use intj.Specialization.Placing.{
  Entry, Numbered, widest_first, assign_offsets, offset_at, put, is_keyed, layout_fields,
}

-- Whether byte `n` of the key lies in a field.
abbrev pub covers : ℕ → CacheKeyField → Bool
covers n f = elim f.offset [ none ↦ false | some offset ↦ leb offset n && ltb n (offset + f.width) ]

abbrev pub one_if : Bool → ℕ
one_if true = 1
one_if false = 0

-- How many of the fields hold byte `n`.
abbrev pub owners : ℕ → List Entry → ℕ
owners n [] = 0
owners n ((_, f) ∷ rest) = one_if (covers n f) + owners n rest

-- The bytes that all fields take together.
abbrev pub total_width : List Entry → ℕ
total_width [] = 0
total_width ((_, f) ∷ rest) = f.width + total_width rest

abbrev pub entry_of : Numbered → Entry
entry_of e = e.1

module _ (n : ℕ) (offsets : List (ℕ × ℕ)) where
  owners-insert_by :
      (x : Numbered) (ys : List Numbered)
      → owners n (map (put offsets) (insert_by widest_first x ys))
        ≡ owners n (map (put offsets) (x ∷ ys))
  unfolding insert_by
  owners-insert_by x [] = refl
  owners-insert_by x (y ∷ ys) = elim (Bool-cases (widest_first x y)) [
    | inl e ↦ rw e
    | inr e ↦ rw e (omega (arith, owners-insert_by x ys))
  ]

  owners-sort_by :
      (xs : List Numbered)
      → owners n (map (put offsets) (sort_by widest_first xs)) ≡ owners n (map (put offsets) xs)
  unfolding sort_by
  owners-sort_by [] = refl
  owners-sort_by (x ∷ xs) =
      owners-insert_by x (sort_by widest_first xs)
      ∙ ap (λ (k : ℕ). one_if (covers n (put offsets x).1) + k) (owners-sort_by xs)

-- No two entries have one source index.
abbrev pub Apart : List Numbered → Type 0
Apart [] = Unit
Apart (x ∷ xs) = All (λ y. y.0 ≢ x.0) xs × Apart xs

insert_by-Apart :
    (x : Numbered) (ys : List Numbered)
    → All (λ y. y.0 ≢ x.0) ys
    → Apart ys
    → Apart (insert_by widest_first x ys)
unfolding insert_by
insert_by-Apart x [] h a = (tt, tt)
insert_by-Apart x (y ∷ ys) h a = elim (Bool-cases (widest_first x y)) [
  | inl e ↦ rw e (h, a)
  | inr e ↦ rw e (
    insert_by-All widest_first (λ z. z.0 ≢ y.0) x ys (λ p. h.0 (sym p)) a.0,
    insert_by-Apart x ys h.1 a.1,
  )
]

pub sort_by-Apart : (xs : List Numbered) → Apart xs → Apart (sort_by widest_first xs)
unfolding sort_by
sort_by-Apart [] a = tt
sort_by-Apart (x ∷ xs) a =
    insert_by-Apart x (sort_by widest_first xs) (sort_by-All widest_first (λ y. y.0 ≢ x.0) xs a.0)
      (sort_by-Apart xs a.1)

enumerate_from-above :
    (k n : ℕ) (xs : List Entry) → k < n → All (λ y. y.0 ≢ k) (enumerate_from n xs)
enumerate_from-above k n [] h = tt
enumerate_from-above k n (x ∷ xs) h = (omega arith, enumerate_from-above k (suc n) xs (omega arith))

pub enumerate_from-Apart : (n : ℕ) (xs : List Entry) → Apart (enumerate_from n xs)
enumerate_from-Apart n [] = tt
enumerate_from-Apart n (x ∷ xs) =
    (enumerate_from-above n (suc n) xs (omega arith), enumerate_from-Apart (suc n) xs)

-- An offset that is recorded for another source is not looked at.
put_skip :
    (source offset : ℕ) (offsets : List (ℕ × ℕ)) (xs : List Numbered)
    → All (λ y. y.0 ≢ source) xs
    → map (put ((source, offset) ∷ offsets)) xs ≡ map (put offsets) xs
unfolding offset_at
put_skip source offset offsets [] h = refl
put_skip source offset offsets ((i, (p, f)) ∷ xs) h =
    ap₂ (λ (e : Entry) (es : List Entry). e ∷ es) (ground arith)
      (put_skip source offset offsets xs h.1)

assign_offsets-le : (start : ℕ) (xs : List Numbered) → start ≤ (assign_offsets start xs).1
unfolding assign_offsets
assign_offsets-le start [] = omega arith
assign_offsets-le start ((i, (p, f)) ∷ xs) = omega (arith, assign_offsets-le (start + f.width) xs)

owners-assign_offsets :
    (n start : ℕ) (xs : List Numbered)
    → Apart xs
    → owners n (map (put (assign_offsets start xs).0) xs)
      ≡ one_if (leb start n && ltb n (assign_offsets start xs).1)
unfolding assign_offsets offset_at
owners-assign_offsets n start [] a = ground arith
owners-assign_offsets n start ((i, (p, f)) ∷ xs) a =
    rw (put_skip i start (assign_offsets (start + f.width) xs).0 xs a.0) (
      ground (
        arith,
        owners-assign_offsets n (start + f.width) xs a.1,
        assign_offsets-le (start + f.width) xs,
      ))

assign_offsets-total :
    (start : ℕ) (xs : List Numbered)
    → (assign_offsets start xs).1 ≡ start + total_width (map entry_of xs)
unfolding assign_offsets
assign_offsets-total start [] = omega arith
assign_offsets-total start ((i, (p, f)) ∷ xs) =
    omega (arith, assign_offsets-total (start + f.width) xs)

total_width-insert_by :
    (x : Numbered) (ys : List Numbered)
    → total_width (map entry_of (insert_by widest_first x ys)) ≡ total_width (map entry_of (x ∷ ys))
unfolding insert_by
total_width-insert_by x [] = refl
total_width-insert_by x (y ∷ ys) = elim (Bool-cases (widest_first x y)) [
  | inl e ↦ rw e
  | inr e ↦ rw e (omega (arith, total_width-insert_by x ys))
]

total_width-sort_by :
    (xs : List Numbered)
    → total_width (map entry_of (sort_by widest_first xs)) ≡ total_width (map entry_of xs)
unfolding sort_by
total_width-sort_by [] = refl
total_width-sort_by (x ∷ xs) =
    total_width-insert_by x (sort_by widest_first xs)
    ∙ ap (λ (k : ℕ). x.1.1.width + k) (total_width-sort_by xs)

map-enumerate_from : (n : ℕ) (xs : List Entry) → map entry_of (enumerate_from n xs) ≡ xs
map-enumerate_from n [] = refl
map-enumerate_from n (x ∷ xs) = ap (λ (ys : List Entry). x ∷ ys) (map-enumerate_from (suc n) xs)

abbrev pub sorted_entries : List Entry → List Numbered
sorted_entries fields = sort_by widest_first (enumerate_from 0 fields)

end-eq : (fields : List Entry) → (assign_offsets 0 (sorted_entries fields)).1 ≡ total_width fields
end-eq fields = omega (
  arith,
  assign_offsets-total 0 (sorted_entries fields),
  total_width-sort_by (enumerate_from 0 fields),
  ap total_width (map-enumerate_from 0 fields),
)

-- Each byte below the total width is in exactly one placed field, and no other byte is in any.
pub layout_fields-tiles :
    (fields : List Entry) (binding : DeviceBinding) (n : ℕ)
    → owners n (layout_fields fields binding).fields ≡ one_if (ltb n (total_width fields))
unfolding layout_fields
layout_fields-tiles fields binding n =
    let numbered = enumerate_from 0 fields in
    let offsets = (assign_offsets 0 (sorted_entries fields)).0 in
    sym (owners-sort_by n offsets numbered)
    ∙ owners-assign_offsets n 0 (sorted_entries fields)
        (sort_by-Apart numbered (enumerate_from-Apart 0 fields))
    ∙ rw (end-eq fields) (ground arith)

-- The device slot, if the device is keyed, is the byte behind the fields.
pub device_offset-eq :
    (fields : List Entry) (binding : DeviceBinding)
    → (layout_fields fields binding).device_offset
      ≡ (if is_keyed binding then some (total_width fields) else none)
unfolding layout_fields
device_offset-eq fields binding = rw (end-eq fields)

-- The key has as few words as its bytes need.
pub nwords-bounds :
    (fields : List Entry) (binding : DeviceBinding)
    → let bytes = total_width fields + one_if (is_keyed binding) in
      let words = (layout_fields fields binding).nwords in
      (bytes ≤ words * 8) × (words * 8 < bytes + 8)
unfolding layout_fields
nwords-bounds fields binding = rw (end-eq fields) (ground arith)
