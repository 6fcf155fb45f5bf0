-- ===== src/Prelude/Names.antt =====
-- Lists and sets of Python names, and membership by `in`.
use Prim.Native.String.{String}
use mathlib.Core.Path.{◌≡◌, refl, subst}
use mathlib.Core.Bool.{Bool, true, false, ◌||◌}
use mathlib.Core.List.{List, [], ◌∷◌, ◌++◌, map}
use native.Mathlib.Omega.{arith}
use intj.Prelude.Lists.{All, All-append}
use intj.Prelude.Tests.{if◌then◌else◌, Bool-cases}
use mathlib.Core.Logic.{inl, inr}
use text.Mathlib.Text.{◌==◌ as str_eq}
use text.Mathlib.TextEquality.{eq_iff}

unfoldable pub contains : List String → String → Bool
contains [] a = false
contains (x ∷ xs) a = str_eq x a || contains xs a

-- `dict.fromkeys(xs)`: each name once, in the order of its first place; `seen` is the dict so far.
unfoldable pub distinct_from : List String → List String → List String
distinct_from seen [] = seen
distinct_from seen (x ∷ xs) = distinct_from (if contains seen x then seen else seen ++ x ∷ []) xs

-- No name stands twice.
abbrev pub IsDistinct : List String → Type 0
IsDistinct [] = Unit
IsDistinct (x ∷ xs) = (contains xs x ≡ false) × IsDistinct xs

pub contains-append :
    (xs ys : List String) (a : String) → contains (xs ++ ys) a ≡ contains xs a || contains ys a
unfolding contains
contains-append [] ys a = refl
contains-append (x ∷ xs) ys a = ground (arith, contains-append xs ys a)

pub IsDistinct-snoc :
    (xs : List String) (a : String)
    → contains xs a ≡ false
    → IsDistinct xs
    → IsDistinct (xs ++ a ∷ [])
unfolding contains
IsDistinct-snoc [] a h d = (refl, tt)
IsDistinct-snoc (x ∷ xs) a h d = (
  ground (arith, contains-append xs (a ∷ []) x, eq_iff x a, eq_iff a x, d),
  IsDistinct-snoc xs a (ground arith) d.1,
)

pub distinct_from-IsDistinct :
    (seen xs : List String) → IsDistinct seen → IsDistinct (distinct_from seen xs)
unfolding distinct_from
distinct_from-IsDistinct seen [] d = d
distinct_from-IsDistinct seen (x ∷ xs) d = elim (Bool-cases (contains seen x)) [
  | inl old ↦ rw old (distinct_from-IsDistinct seen xs d)
  | inr new ↦ rw new (distinct_from-IsDistinct (seen ++ x ∷ []) xs (IsDistinct-snoc seen x new d))
]

-- What holds of every name of a list holds of each name in it.
pub contains-All {ℓ} :
    {A : Type ℓ} (name : A → String) (P : String → Type 0) (xs : List A) (n : String)
    → All (λ x. P (name x)) xs
    → contains (map name xs) n ≡ true
    → P n
unfolding contains
contains-All name P [] n h there = cc
contains-All name P (x ∷ xs) n h there = elim (Bool-cases (str_eq (name x) n)) [
  | inl hit ↦ subst P ((eq_iff (name x) n).0 hit) h.0
  | inr miss ↦ contains-All name P xs n h.1 (rw miss at there)
]

-- What holds of all names holds of each name once.
pub distinct_from-All :
    (P : String → Type 0) (seen xs : List String)
    → All P seen
    → All P xs
    → All P (distinct_from seen xs)
unfolding distinct_from
distinct_from-All P seen [] h k = h
distinct_from-All P seen (x ∷ xs) h k = elim (Bool-cases (contains seen x)) [
  | inl old ↦ rw old (distinct_from-All P seen xs h k.1)
  | inr new ↦
      rw new (distinct_from-All P (seen ++ x ∷ []) xs (All-append P seen (x ∷ []) h (k.0, tt)) k.1)
]
