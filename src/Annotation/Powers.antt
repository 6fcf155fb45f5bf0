-- ===== src/Annotation/Powers.antt =====
-- About annotation.py, `_merge_annotations`: the bit count of a baked `power_of_two_or_zero`
-- value.
use intj.Prelude.{ℕ, ◌^◌, ◌≡◌}

abbrev pub IsPower : ℕ → Type 0
IsPower n = (k : ℕ) × (n ≡ 2 ^ k)
