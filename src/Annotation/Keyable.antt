-- ===== src/Annotation/Keyable.antt =====
-- About annotation.py, `_merge_annotations`: the types that it returns, for specialization.py.
use intj.Prelude.{
  ℕ, suc, String, ◌≡◌, refl, sym, ap, subst, Bool, false, not, ◌&&◌, Option, none, some, List, [],
  ◌∷◌, ◌++◌, All, Option-cases, inl, inr, ok, refuse, bind_elim, after-eq-ok, ok-inj,
}
use intj.Prelude.Dict.{Dict, lookup, lookup-All}
use intj.ScalarTypes.{ParamKind, argument, constexpr, is_argument}
use intj.Annotation.{
  conflict, value_and_bind_value, tensor_clash, power_needs_integer, conflicting_tensor,
  unknown_parameter, is_some, CanonicalAnnotation, ResolvedParam,
}
use intj.Annotation.Types.{TypeField, canonical_types}
use intj.Annotation.Facts.{Argument, Constexpr}
use intj.Annotation.Merge.{
  RawAnnotation, KernelParam, Source, argument_source, constexpr_source, empty_constexpr,
  merge_field, merge_given, same_bind, argument_modes, same_value, same_types, merge_type, Merged,
  merge_constexpr, merge_argument, merge_sources,
}
use intj.Annotation.Bake.{bake, check_power, tag_of}
use intj.Annotation.Canonical.{
  is_tensor_only, clashes_tensor, lacks_integers, modes_of, canonical_annotation,
}
use intj.Annotation.Resolve.{
  read_inline, read_extra, disagree, merge_param, merge_params, merge_annotations,
}
use intj.Annotation.Built.{
  IsChecked, IsBuilt, IsBuiltSource, IsBuiltIf, read_inline-IsBuilt, read_extra-IsBuilt,
}
use intj.Annotation.Known.{canonical_types-AreKnown, bake_constexpr-AreKnown}
use intj.Specialization.KeyFields.Widths.{IsKeyable, AreKnown}

-- A merged constexpr has a checked type field.
abbrev IsPlaceable : Merged → Type 0
IsPlaceable m = is_argument m.kind ≡ false → IsChecked m.raw_type

module _ (fp_types : List String) where
  merge_given-eq :
      (kind : ParamKind) (left right : TypeField) {field : TypeField}
      → merge_given fp_types kind left right ≡ ok field
      → left ≡ field
  unfolding merge_given
  merge_given-eq kind left right e =
      bind_elim (canonical_types fp_types kind left) _ e λ a named more.
        bind_elim (canonical_types fp_types kind right) _ more λ b named' done.
          ok-inj (after-eq-ok (refuse (not (same_types a b)) (conflict "type")) _ done)

  merge_type-IsChecked :
      (kind : ParamKind) (left right : TypeField) {field : TypeField}
      → IsChecked left
      → IsChecked right
      → merge_type fp_types kind left right ≡ ok field
      → IsChecked field
  unfolding merge_type
  merge_type-IsChecked kind TypeField.unset right l r e = subst IsChecked (ok-inj e) r
  merge_type-IsChecked kind (TypeField.one a) TypeField.unset l r e = subst IsChecked (ok-inj e) l
  merge_type-IsChecked kind (TypeField.many as') TypeField.unset l r e =
      subst IsChecked (ok-inj e) l
  merge_type-IsChecked kind (TypeField.one a) (TypeField.one b) l r e =
      subst IsChecked (merge_given-eq kind (TypeField.one a) (TypeField.one b) e) l
  merge_type-IsChecked kind (TypeField.one a) (TypeField.many bs) l r e =
      subst IsChecked (merge_given-eq kind (TypeField.one a) (TypeField.many bs) e) l
  merge_type-IsChecked kind (TypeField.many as') (TypeField.one b) l r e =
      subst IsChecked (merge_given-eq kind (TypeField.many as') (TypeField.one b) e) l
  merge_type-IsChecked kind (TypeField.many as') (TypeField.many bs) l r e =
      subst IsChecked (merge_given-eq kind (TypeField.many as') (TypeField.many bs) e) l

  merge_constexpr-IsPlaceable :
      (left right : Constexpr) {m : Merged}
      → IsChecked left.type_field
      → IsChecked right.type_field
      → merge_constexpr fp_types left right ≡ ok m
      → IsPlaceable m
  unfolding merge_constexpr
  merge_constexpr-IsPlaceable left right l r e =
      bind_elim (merge_type fp_types constexpr left.type_field right.type_field) _ e
        λ field merged more.
          bind_elim (merge_field same_value "value" left.value right.value) _ more
            λ baked found done.
              subst IsPlaceable (ok-inj done)
                (λ k. merge_type-IsChecked constexpr left.type_field right.type_field l r merged)

  merge_argument-IsPlaceable :
      (p : KernelParam) (left right : Argument) {m : Merged}
      → merge_argument fp_types p left right ≡ ok m
      → IsPlaceable m
  unfolding merge_argument
  merge_argument-IsPlaceable p left right e =
      bind_elim (merge_type fp_types argument left.type_field right.type_field) _ e
        λ field merged more.
          bind_elim (merge_field same_value "value" left.value right.value) _ more
            λ baked found more.
              bind_elim (merge_field same_bind "bind_value" left.bind_value right.bind_value) _ more
                λ bound found more.
                  bind_elim (argument_modes p left.specialize right.specialize) _
                    (after-eq-ok (refuse (is_some baked && is_some bound) value_and_bind_value) _
                      more)
                    λ modes set done. subst IsPlaceable (ok-inj done) (λ k. cc)

  merge_sources-IsPlaceable :
      (p : KernelParam) (inline extra : Option Source) {m : Merged}
      → IsBuiltSource inline
      → IsBuiltSource extra
      → merge_sources fp_types p inline extra ≡ ok m
      → IsPlaceable m
  unfolding merge_sources
  merge_sources-IsPlaceable p none none b c e = merge_argument-IsPlaceable p _ _ e
  merge_sources-IsPlaceable p none (some (argument_source y)) b c e =
      merge_argument-IsPlaceable p _ _ e
  merge_sources-IsPlaceable p none (some (constexpr_source y)) b c e =
      merge_constexpr-IsPlaceable empty_constexpr y refl c e
  merge_sources-IsPlaceable p (some (argument_source x)) none b c e =
      merge_argument-IsPlaceable p _ _ e
  merge_sources-IsPlaceable p (some (argument_source x)) (some (argument_source y)) b c e =
      merge_argument-IsPlaceable p _ _ e
  merge_sources-IsPlaceable p (some (argument_source x)) (some (constexpr_source y)) b c e = cc
  merge_sources-IsPlaceable p (some (constexpr_source x)) none b c e =
      merge_constexpr-IsPlaceable x empty_constexpr b refl e
  merge_sources-IsPlaceable p (some (constexpr_source x)) (some (argument_source y)) b c e = cc
  merge_sources-IsPlaceable p (some (constexpr_source x)) (some (constexpr_source y)) b c e =
      merge_constexpr-IsPlaceable x y b c e

  canonical_annotation-IsKeyable :
      (triton_typed : Bool) (kinds : List Bool) (m : Merged) {a : CanonicalAnnotation}
      → IsPlaceable m
      → canonical_annotation fp_types triton_typed kinds m ≡ ok a
      → IsKeyable a
  unfolding canonical_annotation
  canonical_annotation-IsKeyable triton_typed kinds m placeable e =
      bind_elim (canonical_types fp_types m.kind m.raw_type) _ e λ types named more.
        let more =
          after-eq-ok (refuse (is_tensor_only kinds && clashes_tensor m types) tensor_clash) _
            more in
        let more =
          after-eq-ok (refuse (m.power && lacks_integers types) power_needs_integer) _ more in
        bind_elim (tag_of m.baked) _ more λ tag tagged more.
          bind_elim (bake m.kind types m.baked) _ more λ narrowed baked more.
            let more = after-eq-ok (check_power m.power m.baked) _ more in
            bind_elim (modes_of m narrowed) _ more λ modes set done.
              subst IsKeyable (ok-inj done) (known m.kind refl types narrowed named baked)
    where
      known :
          (kind : ParamKind)
          → m.kind ≡ kind
          → (types narrowed : Option (List (Option String)))
          → canonical_types fp_types m.kind m.raw_type ≡ ok types
          → bake m.kind types m.baked ≡ ok narrowed
          → is_argument m.kind ≡ false
          → AreKnown narrowed
      known argument is types narrowed named baked k = cc (ap is_argument is)
      known constexpr is types narrowed named baked k =
          bake_constexpr-AreKnown types m.baked
            (canonical_types-AreKnown fp_types m.raw_type (placeable k)
              (subst (λ kind. canonical_types fp_types kind m.raw_type ≡ ok types) is named))
            (subst (λ kind. bake kind types m.baked ≡ ok narrowed) is baked)

module _ (fp_types : List String) where
  merge_param-IsKeyable :
      (index : ℕ) (p : KernelParam) (extra : Option RawAnnotation) {r : ResolvedParam}
      → IsBuilt p.annotation
      → IsBuiltIf extra
      → merge_param fp_types index p extra ≡ ok r
      → IsKeyable r.annotation
  unfolding merge_param
  merge_param-IsKeyable index p extra b c e = bind_elim (read_inline p) _ e λ inline is_inline more.
      bind_elim (read_extra extra) _ more λ other is_other more.
        let kinds = inline.1 ++ other.1 in
        let more = after-eq-ok (refuse (disagree kinds) conflicting_tensor) _ more in
        bind_elim (merge_sources fp_types p inline.0 other.0) _ more λ m merged more.
          bind_elim (canonical_annotation fp_types (is_some p.triton_type) kinds m) _ more
            λ a canonical done.
              subst (λ (r : ResolvedParam). IsKeyable r.annotation) (ok-inj done)
                (canonical_annotation-IsKeyable fp_types (is_some p.triton_type) kinds m
                  (merge_sources-IsPlaceable fp_types p inline.0 other.0
                    (read_inline-IsBuilt p b is_inline) (read_extra-IsBuilt extra c is_other)
                    merged)
                  canonical)

  extra-IsBuilt :
      (extra : Dict RawAnnotation) (name : String)
      → All (λ e. IsBuilt e.1) extra
      → IsBuiltIf (lookup name extra)
  extra-IsBuilt extra name h = elim (Option-cases (lookup name extra)) [
    | inl absent ↦ subst IsBuiltIf (sym absent) tt
    | inr (raw, found) ↦ subst IsBuiltIf (sym found) (lookup-All IsBuilt name extra h found)
  ]

  merge_params-IsKeyable :
      (index : ℕ) (params : List KernelParam) (extra : Dict RawAnnotation)
      {resolved : List ResolvedParam}
      → All (λ p. IsBuilt p.annotation) params
      → All (λ e. IsBuilt e.1) extra
      → merge_params fp_types index params extra ≡ ok resolved
      → All (λ r. IsKeyable r.annotation) resolved
  unfolding merge_params
  merge_params-IsKeyable index [] extra b c e =
      subst (All (λ r. IsKeyable r.annotation)) (ok-inj e) tt
  merge_params-IsKeyable index (p ∷ rest) extra b c e =
      bind_elim (merge_param fp_types index p (lookup p.name extra)) _ e λ r is_r more.
        bind_elim (merge_params fp_types (suc index) rest extra) _ more λ rs are_rs done.
          subst (All (λ r. IsKeyable r.annotation)) (ok-inj done) (
            merge_param-IsKeyable index p (lookup p.name extra) b.0 (extra-IsBuilt extra p.name c)
                is_r,
            merge_params-IsKeyable (suc index) rest extra b.1 c are_rs,
          )

  -- Every parameter that the merge returns can be placed in a key.
  pub merge_annotations-IsKeyable :
      (params : List KernelParam) (extra : Dict RawAnnotation) {resolved : List ResolvedParam}
      → All (λ p. IsBuilt p.annotation) params
      → All (λ e. IsBuilt e.1) extra
      → merge_annotations fp_types params extra ≡ ok resolved
      → All (λ r. IsKeyable r.annotation) resolved
  unfolding merge_annotations
  merge_annotations-IsKeyable params extra b c e =
      merge_params-IsKeyable 0 params extra b c (after-eq-ok (refuse _ unknown_parameter) _ e)
