-- ===== src/Specialization/Placing/Alignment.antt =====
-- About specialization.py, `_layout_fields`: the alignment of the offsets.
use intj.Prelude.{
  ℕ, suc, ◌+◌, ◌%◌, ◌≤◌, ◌≡◌, ◌≢◌, ◌⊎◌, true, some, List, [], ◌∷◌, map, All, All-mono,
  enumerate_from, arith,
}
use intj.Prelude.Sort.{sort_by-All, All-of_sort_by, IsSortedBy, sort_by-IsSortedBy}
use intj.Annotation.{DeviceBinding}
use intj.Specialization.Placing.{
  Entry, Numbered, widest_first, assign_offsets, offset_at, put, layout_fields,
}
use intj.Specialization.Placing.Coverage.{
  Apart, sort_by-Apart, enumerate_from-Apart, sorted_entries,
}

-- The widths that a machine word is made of.
abbrev pub IsWidth : ℕ → Type 0
IsWidth w = (w ≡ 1) ⊎ (w ≡ 2) ⊎ (w ≡ 4) ⊎ (w ≡ 8)

abbrev pub HasWidth : Entry → Type 0
HasWidth e = IsWidth e.1.width

abbrev pub IsAligned : Entry → Type 0
IsAligned e = (offset : ℕ) × (e.1.offset ≡ some offset) × (offset % e.1.width ≡ 0)

-- An entry gets an aligned offset from a table of offsets.
abbrev Lands : List (ℕ × ℕ) → Numbered → Type 0
Lands offsets e = (offset : ℕ) × (offset_at offsets e.0 ≡ some offset) × (offset % e.1.1.width ≡ 0)

Lands-cons :
    (source offset : ℕ) (offsets : List (ℕ × ℕ)) (xs : List Numbered)
    → All (λ y. y.0 ≢ source) xs
    → All (Lands offsets) xs
    → All (Lands ((source, offset) ∷ offsets)) xs
unfolding offset_at
Lands-cons source offset offsets [] h l = tt
Lands-cons source offset offsets (x ∷ xs) h l =
    ((l.0.0, ground arith, l.0.2), Lands-cons source offset offsets xs h.1 l.1)

width_divides :
    (start w v : ℕ) → IsWidth w → IsWidth v → v ≤ w → start % v ≡ 0 → (start + w) % v ≡ 0
width_divides start w v iw iv le m = ground arith

advance :
    (start : ℕ) (x : Numbered) (xs : List Numbered)
    → HasWidth x.1
    → All (λ y. HasWidth y.1) xs
    → All (λ y. widest_first x y ≡ true) xs
    → All (λ y. start % y.1.1.width ≡ 0) xs
    → All (λ y. (start + x.1.1.width) % y.1.1.width ≡ 0) xs
advance start x [] w ws s m = tt
advance start x (y ∷ ys) w ws s m = (
  width_divides start x.1.1.width y.1.1.width w ws.0 (ground arith) m.0,
  advance start x ys w ws.1 s.1 m.1,
)

assign_offsets-Lands :
    (start : ℕ) (xs : List Numbered)
    → Apart xs
    → IsSortedBy widest_first xs
    → All (λ y. HasWidth y.1) xs
    → All (λ y. start % y.1.1.width ≡ 0) xs
    → All (Lands (assign_offsets start xs).0) xs
unfolding assign_offsets offset_at
assign_offsets-Lands start [] a s w m = tt
assign_offsets-Lands start ((i, (p, f)) ∷ xs) a s w m =
    let rest = assign_offsets (start + f.width) xs in
    (
      (start, ground arith, m.0),
      Lands-cons i start rest.0 xs a.0 (
          assign_offsets-Lands (start + f.width) xs a.1 s.1 w.1
            (advance start (i, (p, f)) xs w.0 w.1 s.0 m.1)),
    )

zero_divides : (xs : List Numbered) → All (λ y. HasWidth y.1) xs → All (λ y. 0 % y.1.1.width ≡ 0) xs
zero_divides xs h =
    All-mono (λ y. HasWidth y.1) (λ y. 0 % y.1.1.width ≡ 0) xs (λ y w. ground arith) h

enumerate_from-HasWidth :
    (n : ℕ) (fields : List Entry)
    → All HasWidth fields
    → All (λ y. HasWidth y.1) (enumerate_from n fields)
enumerate_from-HasWidth n [] h = tt
enumerate_from-HasWidth n (x ∷ xs) h = (h.0, enumerate_from-HasWidth (suc n) xs h.1)

map-put-IsAligned :
    (offsets : List (ℕ × ℕ)) (xs : List Numbered)
    → All (Lands offsets) xs
    → All IsAligned (map (put offsets) xs)
map-put-IsAligned offsets [] h = tt
map-put-IsAligned offsets (x ∷ xs) h = (h.0, map-put-IsAligned offsets xs h.1)

sorted_entries-IsSortedBy : (fields : List Entry) → IsSortedBy widest_first (sorted_entries fields)
sorted_entries-IsSortedBy fields =
    sort_by-IsSortedBy widest_first (λ x y h. ground arith) (λ x y z h k. ground arith)
      (enumerate_from 0 fields)

-- If every field is 1, 2, 4 or 8 bytes wide, each one is placed at a multiple of its width.
pub layout_fields-IsAligned :
    (fields : List Entry) (binding : DeviceBinding)
    → All HasWidth fields
    → All IsAligned (layout_fields fields binding).fields
unfolding layout_fields
layout_fields-IsAligned fields binding h =
    let numbered = enumerate_from 0 fields in
    let sorted = sorted_entries fields in
    let widths =
      sort_by-All widest_first (λ y. HasWidth y.1) numbered (enumerate_from-HasWidth 0 fields h) in
    map-put-IsAligned (assign_offsets 0 sorted).0 numbered (
      All-of_sort_by widest_first (Lands (assign_offsets 0 sorted).0) numbered (
        assign_offsets-Lands 0 sorted (sort_by-Apart numbered (enumerate_from-Apart 0 fields))
          (sorted_entries-IsSortedBy fields) widths (zero_divides sorted widths)))
