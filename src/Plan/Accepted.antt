-- ===== src/Plan/Accepted.antt =====
-- About plan.py, `_check_dynamic`: the names that it lets pass.
use intj.Prelude.{
  ◌+◌, ◌≤◌, ◌≡◌, refl, String, Bool, false, not, Option, List, [], ◌∷◌, ◌++◌, any, length,
  length-append, All, ok, refuse-eq-ok, bind_elim, arith, eq_iff, ◌==◌, Bool-cases, inl, inr,
}
use intj.Prelude.Names.{contains, contains-append, distinct_from, IsDistinct}
use intj.Plan.Options.{repeated_name, given_twice}
use intj.Plan.Dynamic.{Parameters, is_given, check_names, check_dynamic}

distinct_from-le_length :
    (seen xs : List String) → length (distinct_from seen xs) ≤ length seen + length xs
unfolding distinct_from
distinct_from-le_length seen [] = omega arith
distinct_from-le_length seen (x ∷ xs) = elim (Bool-cases (contains seen x)) [
  | inl old ↦ rw old (let k = distinct_from-le_length seen xs in omega arith)
  | inr new ↦ rw new (
      let k = distinct_from-le_length (seen ++ x ∷ []) xs in
      omega (arith, length-append {0} seen (x ∷ [])))
]

apart_from :
    (seen : List String) (x : String) (xs : List String)
    → All (λ y. contains (seen ++ x ∷ []) y ≡ false) xs
    → (contains xs x ≡ false) × All (λ y. contains seen y ≡ false) xs
unfolding contains
apart_from seen x [] h = (refl, tt)
apart_from seen x (y ∷ xs) (h, hs) =
    let (f, b) = apart_from seen x xs hs in
    let e = contains-append seen (x ∷ []) y in
    (ground (arith, e, h, f, eq_iff x y, eq_iff y x), (ground (arith, e, h), b))

-- `len(set(xs)) == len(xs)`: no name is dropped, so none stands twice.
distinct_from-IsDistinct_names :
    (seen xs : List String)
    → length (distinct_from seen xs) ≡ length seen + length xs
    → IsDistinct xs × All (λ x. contains seen x ≡ false) xs
unfolding distinct_from contains
distinct_from-IsDistinct_names seen [] h = (tt, tt)
distinct_from-IsDistinct_names seen (x ∷ xs) h = elim (Bool-cases (contains seen x)) [
  | inl old ↦
      let k = distinct_from-le_length seen xs in
      let g = rw (old, distinct_from) at h in absurd (omega arith)
  | inr new ↦
      let g = rw (new, distinct_from) at h in
      let (d, a) =
        distinct_from-IsDistinct_names (seen ++ x ∷ []) xs
          (omega (arith, length-append {0} seen (x ∷ []))) in
      let (f, b) = apart_from seen x xs a in ((f, d), (new, b))
]

any-false : (p : String → Bool) (xs : List String) → any p xs ≡ false → All (λ x. p x ≡ false) xs
any-false p [] h = tt
any-false p (x ∷ xs) h = (ground (arith, h), any-false p xs (ground (arith, h)))

-- Of the dynamic options that are accepted none stands twice, and `options` gives the value of none.
pub check_dynamic-accepts :
    (knob_attribute : String → String → Bool) (dynamic options : List String) (params : Parameters)
    (tuned : Option (List String))
    → check_dynamic knob_attribute dynamic options params tuned ≡ ok tt
    → IsDistinct dynamic × All (λ n. is_given options n ≡ false) dynamic
unfolding check_dynamic
check_dynamic-accepts knob_attribute dynamic options params tuned h =
    let (one, h1) =
      refuse-eq-ok (not (length (distinct_from [] dynamic) == length dynamic)) repeated_name _ h in
    bind_elim (check_names knob_attribute params dynamic) _ h1 λ u hu h2.
      let (two, h3) = refuse-eq-ok (any (is_given options) dynamic) given_twice _ h2 in
      (
        (distinct_from-IsDistinct_names [] dynamic (ground arith)).0,
        any-false (is_given options) dynamic two,
      )
