-- ===== src/Annotation/Known.antt =====
-- About annotation.py, `_canonical_types` and the narrowing of types: the types of a constexpr.
use intj.Prelude.{
  String, ◌≡◌, refl, subst, ◌∙◌, Bool, true, false, Option, none, some, List, [], ◌∷◌, any, filter,
  All, str_eq, eq_iff, Bool-cases, Option-cases, inl, inr, ok, err, bind_elim, ok-inj, after-eq-ok,
}
use intj.Prelude.Dict.{lookup, lookup-All}
use intj.Prelude.Names.{contains}
use intj.Prelude.Sort.{insert_by, sort_by, sort_by-All}
use intj.Values.{Value}
use intj.ScalarTypes.{constexpr, find_scalar, scalar_of, key_bytes, fits, narrowness, narrower}
use intj.Annotation.{does_not_fit}
use intj.Annotation.Types.{
  TypeValue, TypeField, normalize_type_field, integer_names, float_name, dtype_name, type_name,
  type_names, is_auto_value, same_name, distinct_names, by_name, sorted_types, canonical_types,
}
use intj.Annotation.Bake.{narrowest, bake, bake_constexpr, check_scalar}
use intj.Specialization.KeyFields.Widths.{IsKnown, AreKnown}

integer_names-IsKnown : All (λ e. IsKnown (some e.1)) integer_names
unfolding key_bytes scalar_of find_scalar
integer_names-IsKnown = (
  (1, refl),
  (
    (1, refl),
    ((2, refl), ((4, refl), ((8, refl), ((1, refl), ((2, refl), ((4, refl), ((8, refl), tt))))))),
  ),
)

fp64-IsKnown : IsKnown (some "fp64")
unfolding key_bytes scalar_of find_scalar
fp64-IsKnown = (8, refl)

null-IsKnown : IsKnown none
unfolding key_bytes
null-IsKnown = (0, refl)

module _ (fp_types : List String) where
  float_name-eq :
      (name : String) {short : String}
      → float_name fp_types constexpr false name ≡ ok short
      → "fp64" ≡ short
  unfolding float_name contains
  float_name-eq name e = elim (Bool-cases (str_eq "fp64" name)) [
    | inl hit ↦ (eq_iff "fp64" name).0 hit ∙ ok-inj (rw hit at e)
    | inr miss ↦ cc (rw miss at e)
  ]

  dtype_name-IsKnown :
      (name : String) {short : String}
      → dtype_name fp_types constexpr false name ≡ ok short
      → IsKnown (some short)
  unfolding dtype_name
  dtype_name-IsKnown name {short} e = elim (Option-cases (lookup name integer_names)) [
    | inr (found, is_found) ↦
        subst (λ s. IsKnown (some s)) (ok-inj (rw (is_found, dtype_name) at e))
          (lookup-All (λ s. IsKnown (some s)) name integer_names integer_names-IsKnown is_found)
    | inl absent ↦
        subst (λ s. IsKnown (some s)) (float_name-eq name (rw (absent, dtype_name) at e))
          fp64-IsKnown
  ]

  type_name-IsKnown :
      (choice : TypeValue) {ty : Option String}
      → type_name fp_types constexpr false choice ≡ ok ty
      → IsKnown ty
  unfolding type_name
  type_name-IsKnown TypeValue.null e = subst IsKnown (ok-inj e) null-IsKnown
  type_name-IsKnown TypeValue.auto e = cc
  type_name-IsKnown TypeValue.other e = cc
  type_name-IsKnown (TypeValue.pointer g c item) e = cc
  type_name-IsKnown (TypeValue.dtype name) e =
      bind_elim (dtype_name fp_types constexpr false name) _ e
        λ short named done. subst IsKnown (ok-inj done) (dtype_name-IsKnown name named)

  type_names-IsKnown :
      (chosen : List TypeValue) {types : List (Option String)}
      → type_names fp_types constexpr chosen ≡ ok types
      → All IsKnown types
  unfolding type_names
  type_names-IsKnown [] e = subst (All IsKnown) (ok-inj e) tt
  type_names-IsKnown (choice ∷ rest) e =
      bind_elim (type_name fp_types constexpr false choice) _ e λ ty named more.
        bind_elim (type_names fp_types constexpr rest) _ more λ types others done.
          subst (All IsKnown) (ok-inj done)
            (type_name-IsKnown choice named, type_names-IsKnown rest others)

-- The names of a set and their order change nothing.
distinct_names-All :
    (P : Option String → Type 0) (types : List (Option String))
    → All P types
    → All P (distinct_names types)
unfolding distinct_names
distinct_names-All P [] h = tt
distinct_names-All P (ty ∷ types) h = elim (Bool-cases (any (same_name ty) types)) [
  | inl again ↦ rw again (distinct_names-All P types h.1)
  | inr new ↦ rw new (h.0, distinct_names-All P types h.1)
]

abbrev is_cons : {A : Type 0} → List A → Bool
is_cons [] = false
is_cons (x ∷ xs) = true

any-is_cons : {A : Type 0} (p : A → Bool) (xs : List A) → any p xs ≡ true → is_cons xs ≡ true
any-is_cons p [] h = cc
any-is_cons p (x ∷ xs) h = refl

distinct_names-is_cons :
    (ty : Option String) (types : List (Option String))
    → is_cons (distinct_names (ty ∷ types)) ≡ true
unfolding distinct_names
distinct_names-is_cons ty [] = refl
distinct_names-is_cons ty (u ∷ types) = elim (Bool-cases (any (same_name ty) (u ∷ types))) [
  | inl again ↦ rw again (distinct_names-is_cons u types)
  | inr new ↦ rw new refl
]

insert_by-is_cons :
    (ty : Option String) (types : List (Option String))
    → is_cons (insert_by by_name ty types) ≡ true
unfolding insert_by
insert_by-is_cons ty [] = refl
insert_by-is_cons ty (u ∷ types) = elim (Bool-cases (by_name ty u)) [
  | inl first ↦ rw first refl
  | inr later ↦ rw later refl
]

sort_by-is_cons :
    (types : List (Option String)) → is_cons types ≡ true → is_cons (sort_by by_name types) ≡ true
unfolding sort_by
sort_by-is_cons [] h = cc
sort_by-is_cons (ty ∷ types) h = insert_by-is_cons ty (sort_by by_name types)

AreKnown-of :
    (types : List (Option String))
    → is_cons types ≡ true
    → All IsKnown types
    → AreKnown (some types)
AreKnown-of [] h k = cc
AreKnown-of (ty ∷ types) h k = k

module _ (fp_types : List String) where
  type_names-is_cons :
      (choice : TypeValue) (chosen : List TypeValue) {types : List (Option String)}
      → type_names fp_types constexpr (choice ∷ chosen) ≡ ok types
      → is_cons (distinct_names types) ≡ true
  unfolding type_names
  type_names-is_cons choice chosen e =
      bind_elim (type_name fp_types constexpr false choice) _ e λ ty named more.
        bind_elim (type_names fp_types constexpr chosen) _ more λ types others done.
          subst (λ ts. is_cons (distinct_names ts) ≡ true) (ok-inj done)
            (distinct_names-is_cons ty types)

  sorted_types-AreKnown :
      (choice : TypeValue) (chosen : List TypeValue) {types : Option (List (Option String))}
      → sorted_types fp_types constexpr (choice ∷ chosen) ≡ ok types
      → AreKnown types
  unfolding sorted_types
  sorted_types-AreKnown choice chosen e = elim (Bool-cases (any is_auto_value (choice ∷ chosen))) [
    | inl bad ↦ cc (rw bad at e)
    | inr good ↦
        bind_elim (type_names fp_types constexpr (choice ∷ chosen)) _ (rw good at e)
          λ types named done. subst AreKnown (ok-inj done) (
            AreKnown-of (sort_by by_name (distinct_names types))
              (sort_by-is_cons (distinct_names types) (type_names-is_cons choice chosen named))
              (sort_by-All by_name IsKnown (distinct_names types) (
                distinct_names-All IsKnown types
                  (type_names-IsKnown fp_types (choice ∷ chosen) named))))
  ]

  pub canonical_types-AreKnown :
      (field : TypeField) {types : Option (List (Option String))}
      → normalize_type_field field ≡ ok field
      → canonical_types fp_types constexpr field ≡ ok types
      → AreKnown types
  unfolding canonical_types
  canonical_types-AreKnown TypeField.unset n e = subst AreKnown (ok-inj e) tt
  canonical_types-AreKnown (TypeField.one TypeValue.auto) n e = subst AreKnown (ok-inj e) tt
  canonical_types-AreKnown (TypeField.one TypeValue.null) n e =
      sorted_types-AreKnown TypeValue.null [] e
  canonical_types-AreKnown (TypeField.one TypeValue.other) n e =
      sorted_types-AreKnown TypeValue.other [] e
  canonical_types-AreKnown (TypeField.one (TypeValue.dtype name)) n e =
      sorted_types-AreKnown (TypeValue.dtype name) [] e
  canonical_types-AreKnown (TypeField.one (TypeValue.pointer g c item)) n e =
      sorted_types-AreKnown (TypeValue.pointer g c item) [] e
  canonical_types-AreKnown (TypeField.many []) n e = cc
  canonical_types-AreKnown (TypeField.many (choice ∷ chosen)) n e =
      sorted_types-AreKnown choice chosen e

filter-All :
    (P : Option String → Type 0) (p : Option String → Bool) (types : List (Option String))
    → All P types
    → All P (filter p types)
filter-All P p [] h = tt
filter-All P p (ty ∷ types) h = keep (p ty) (filter-All P p types h.1)
  where
    keep :
        (kept : Bool)
        → All P (filter p types)
        → All P (elim kept [ true ↦ ty ∷ filter p types | false ↦ filter p types ])
    keep true rest = (h.0, rest)
    keep false rest = rest

narrowest-All :
    (P : Option String → Type 0) (ty : Option String) (types : List (Option String))
    → P ty
    → All P types
    → P (narrowest ty types)
unfolding narrowest
narrowest-All P ty [] h k = h
narrowest-All P ty (u ∷ types) h k = elim (Bool-cases (narrower (narrowness u) (narrowness ty))) [
  | inl closer ↦ rw closer (narrowest-All P u types k.0 k.1)
  | inr wider ↦ rw wider (narrowest-All P ty types h k.1)
]

AreKnown-All : (types : List (Option String)) → AreKnown (some types) → All IsKnown types
AreKnown-All [] k = absurd k
AreKnown-All (ty ∷ types) k = k

-- The narrowest of the types that a value fits is one of them.
chosen-AreKnown :
    (fitting : List (Option String)) {types : Option (List (Option String))}
    → All IsKnown fitting
    → elim fitting [ [] ↦ err does_not_fit | ty ∷ rest ↦ ok (some (narrowest ty rest ∷ [])) ]
      ≡ ok types
    → AreKnown types
chosen-AreKnown [] k e = cc
chosen-AreKnown (ty ∷ rest) k e =
    subst AreKnown (ok-inj e) (narrowest-All IsKnown ty rest k.0 k.1, tt)

pub bake_constexpr-AreKnown :
    (types : Option (List (Option String))) (baked : Option Value)
    {narrowed : Option (List (Option String))}
    → AreKnown types
    → bake constexpr types baked ≡ ok narrowed
    → AreKnown narrowed
unfolding bake bake_constexpr
bake_constexpr-AreKnown types none k e = subst AreKnown (ok-inj e) k
bake_constexpr-AreKnown none (some v) k e =
    subst AreKnown (ok-inj (after-eq-ok (check_scalar v) _ e)) tt
bake_constexpr-AreKnown (some types) (some v) k e =
    chosen-AreKnown (filter (λ ty. fits v ty constexpr) types)
      (filter-All IsKnown (λ ty. fits v ty constexpr) types (AreKnown-All types k)) e
