-- ===== src/Annotation/Coherent.antt =====
-- About annotation.py, `_merge_annotations`: every argument that it returns.
use intj.Prelude.{
  ℕ, suc, String, ◌≡◌, refl, sym, ap, subst, Bool, ◌&&◌, ◌++◌, Option, List, [], ◌∷◌, All, ok,
  refuse, bind_elim, after-eq-ok, ok-inj,
}
use intj.Prelude.Dict.{Dict, lookup}
use intj.Values.{Value}
use intj.ScalarTypes.{ParamKind, argument, constexpr, is_argument}
use intj.Annotation.{
  tensor_clash, power_needs_integer, conflicting_tensor, unknown_parameter, is_some,
  CanonicalAnnotation, ResolvedParam,
}
use intj.Annotation.Types.{canonical_types}
use intj.Annotation.Merge.{RawAnnotation, KernelParam, SetModes, Merged, merge_sources}
use intj.Annotation.Bake.{bake, check_power, tag_of}
use intj.Annotation.Canonical.{
  is_tensor_only, clashes_tensor, lacks_integers, modes_of, canonical_annotation,
}
use intj.Annotation.Resolve.{
  read_inline, read_extra, disagree, merge_param, merge_params, merge_annotations,
}
use intj.Annotation.Fixed.{IsCoherent, check_argument-eq-ok, coherent}

abbrev pub modes_in : CanonicalAnnotation → SetModes
modes_in a = record {
  equal_to_one = a.equal_to_one;
  aligned_16 = a.aligned_16;
  pointer_range_32 = a.pointer_range_32;
}

-- What is said of arguments only.
abbrev pub ForArgument : ParamKind → Type 0 → Type 0
ForArgument argument P = P
ForArgument constexpr P = Unit

-- An argument's annotation is coherent with the value that is baked for it.
abbrev pub Holds : Option Value → CanonicalAnnotation → Type 0
Holds baked a = ForArgument a.kind (IsCoherent baked a.bind_value a.types (modes_in a))

module _ (fp_types : List String) where
  canonical_annotation-Holds :
      (triton_typed : Bool) (kinds : List Bool) (m : Merged) {a : CanonicalAnnotation}
      → canonical_annotation fp_types triton_typed kinds m ≡ ok a
      → Holds m.baked a
  unfolding canonical_annotation modes_of
  canonical_annotation-Holds triton_typed kinds m e =
      bind_elim (canonical_types fp_types m.kind m.raw_type) _ e λ types named more.
        let more =
          after-eq-ok (refuse (is_tensor_only kinds && clashes_tensor m types) tensor_clash) _
            more in
        let more =
          after-eq-ok (refuse (m.power && lacks_integers types) power_needs_integer) _ more in
        bind_elim (tag_of m.baked) _ more λ tag tagged more.
          bind_elim (bake m.kind types m.baked) _ more λ narrowed baked more.
            let more = after-eq-ok (check_power m.power m.baked) _ more in
            bind_elim (modes_of m narrowed) _ more λ modes set done.
              subst (Holds m.baked) (ok-inj done)
                (by_kind m.kind refl types narrowed modes baked set)
    where
      by_kind :
          (kind : ParamKind)
          → m.kind ≡ kind
          → (types narrowed : Option (List (Option String))) (modes : SetModes)
          → bake m.kind types m.baked ≡ ok narrowed
          → modes_of m narrowed ≡ ok modes
          → ForArgument m.kind (IsCoherent m.baked m.bind_value narrowed modes)
      by_kind constexpr is types narrowed modes baked set =
          subst (λ kind. ForArgument kind (IsCoherent m.baked m.bind_value narrowed modes)) (sym is)
            tt
      by_kind argument is types narrowed modes baked set =
          let (possible, checked, final) =
            check_argument-eq-ok m narrowed (rw (ap is_argument is) at set) in
          subst (λ kind. ForArgument kind (IsCoherent m.baked m.bind_value narrowed modes)) (sym is)
            (coherent m.baked m.bind_value types narrowed m.modes modes
              (subst (λ kind. bake kind types m.baked ≡ ok narrowed) is baked) possible checked
              final)

  merge_param-Holds :
      (index : ℕ) (p : KernelParam) (extra : Option RawAnnotation) {r : ResolvedParam}
      → merge_param fp_types index p extra ≡ ok r
      → Holds r.baked r.annotation
  unfolding merge_param
  merge_param-Holds index p extra e = bind_elim (read_inline p) _ e λ inline is_inline more.
      bind_elim (read_extra extra) _ more λ other is_other more.
        let kinds = inline.1 ++ other.1 in
        let more = after-eq-ok (refuse (disagree kinds) conflicting_tensor) _ more in
        bind_elim (merge_sources fp_types p inline.0 other.0) _ more λ m merged more.
          bind_elim (canonical_annotation fp_types (is_some p.triton_type) kinds m) _ more
            λ a canonical done.
              subst (λ (r : ResolvedParam). Holds r.baked r.annotation) (ok-inj done)
                (canonical_annotation-Holds (is_some p.triton_type) kinds m canonical)

  merge_params-Holds :
      (index : ℕ) (params : List KernelParam) (extra : Dict RawAnnotation)
      {resolved : List ResolvedParam}
      → merge_params fp_types index params extra ≡ ok resolved
      → All (λ r. Holds r.baked r.annotation) resolved
  unfolding merge_params
  merge_params-Holds index [] extra e = subst (All (λ r. Holds r.baked r.annotation)) (ok-inj e) tt
  merge_params-Holds index (p ∷ rest) extra e =
      bind_elim (merge_param fp_types index p (lookup p.name extra)) _ e λ r is_r more.
        bind_elim (merge_params fp_types (suc index) rest extra) _ more λ rs are_rs done.
          subst (All (λ r. Holds r.baked r.annotation)) (ok-inj done) (
            merge_param-Holds index p (lookup p.name extra) is_r,
            merge_params-Holds (suc index) rest extra are_rs,
          )

-- Of each argument that the merge returns: no type that it can have is assumed both to be 1 and a
-- multiple of 16; if a value is baked or bound, no fact that applies to its types is left to Triton's
-- specialization; and a baked value fits the one type that the annotation names.
pub merge_annotations-IsCoherent :
    (fp_types : List String) (params : List KernelParam) (extra : Dict RawAnnotation)
    (resolved : List ResolvedParam)
    → merge_annotations fp_types params extra ≡ ok resolved
    → All
        (λ r.
          ForArgument r.annotation.kind
            (IsCoherent r.baked r.annotation.bind_value r.annotation.types (modes_in r.annotation)))
        resolved
unfolding merge_annotations
merge_annotations-IsCoherent fp_types params extra resolved e =
    merge_params-Holds fp_types 0 params extra (after-eq-ok (refuse _ unknown_parameter) _ e)
