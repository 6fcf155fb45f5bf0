-- ===== src/Specialization/Calls/Numbering.antt =====
-- About specialization.py, `call_layout`: the numbers of the public parameters and of the memos.
use intj.Prelude.{
  ℕ, ◌+◌, ◌≡◌, refl, Bool, Option, none, some, List, [], ◌∷◌, map, length, filter, range_from,
  arith, Bool-cases, inl, inr,
}
use intj.Annotation.{ResolvedParam, CanonicalAnnotation, is_some}
use intj.Specialization.KeyFields.{is_public}
use intj.Specialization.Calls.{number_if, next_if, takes_objects, call_layout_from, call_layout}

-- The numbers that are there, in order.
abbrev pub present : List (Option ℕ) → List ℕ
present [] = []
present (none ∷ rest) = present rest
present (some n ∷ rest) = n ∷ present rest

abbrev pub count : (CanonicalAnnotation → Bool) → List ResolvedParam → ℕ
count test resolved = length (filter (λ p. test p.annotation) resolved)

-- What a parameter is numbered by stands exactly at the parameters that pass the test, in order.
pub record Numbers (test : CanonicalAnnotation → Bool) (numbers : List (Option ℕ)) (first : ℕ)
    (resolved : List ResolvedParam) : Type 0 where
  pub dense : present numbers ≡ range_from first (count test resolved)
  pub where_due : map is_some numbers ≡ map (λ p. test p.annotation) resolved

Numbers-cons :
    (test : CanonicalAnnotation → Bool) (p : ResolvedParam) (numbers : List (Option ℕ)) (first : ℕ)
    (resolved : List ResolvedParam)
    → Numbers test numbers (next_if (test p.annotation) first) resolved
    → Numbers test (number_if (test p.annotation) first ∷ numbers) first (p ∷ resolved)
Numbers-cons test p numbers first resolved h = elim (Bool-cases (test p.annotation)) [
  | inl yes_it_is ↦
      let k : Numbers test numbers (first + 1) resolved = rw yes_it_is at h in
      rw yes_it_is (record {
        dense = ground (arith, k.dense, yes_it_is);
        where_due = ground (arith, k.where_due, yes_it_is);
      })
  | inr not_it ↦
      let k : Numbers test numbers first resolved = rw not_it at h in
      rw not_it (record {
        dense = ground (arith, k.dense, not_it);
        where_due = ground (arith, k.where_due, not_it);
      })
]

call_layout_from-call_index :
    (call_index memo : ℕ) (resolved : List ResolvedParam)
    → Numbers is_public
        (map (λ p. p.call_index) (call_layout_from call_index memo resolved))
        call_index
        resolved
unfolding call_layout_from
call_layout_from-call_index call_index memo [] = record { dense = refl; where_due = refl }
call_layout_from-call_index call_index memo (p ∷ rest) =
    Numbers-cons is_public p _ call_index rest (
      call_layout_from-call_index (next_if (is_public p.annotation) call_index)
        (next_if (takes_objects p.annotation) memo) rest)

call_layout_from-memo :
    (call_index memo : ℕ) (resolved : List ResolvedParam)
    → Numbers takes_objects
        (map (λ p. p.memo) (call_layout_from call_index memo resolved))
        memo
        resolved
unfolding call_layout_from
call_layout_from-memo call_index memo [] = record { dense = refl; where_due = refl }
call_layout_from-memo call_index memo (p ∷ rest) = Numbers-cons takes_objects p _ memo rest (
    call_layout_from-memo (next_if (is_public p.annotation) call_index)
      (next_if (takes_objects p.annotation) memo) rest)

-- The public parameters, and no others, are numbered 0, 1, … in signature order.
pub call_layout-call_index :
    (resolved : List ResolvedParam)
    → Numbers is_public (map (λ p. p.call_index) (call_layout resolved)) 0 resolved
unfolding call_layout
call_layout-call_index resolved = call_layout_from-call_index 0 0 resolved

-- The public parameters that take objects, and no others, have the memos 0, 1, … in order.
pub call_layout-memo :
    (resolved : List ResolvedParam)
    → Numbers takes_objects (map (λ p. p.memo) (call_layout resolved)) 0 resolved
unfolding call_layout
call_layout-memo resolved = call_layout_from-memo 0 0 resolved
