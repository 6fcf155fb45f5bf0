-- ===== src/Annotation/Built.antt =====
-- About annotation.py, `_annotation_source`: annotation objects that came from their constructors.
use intj.Prelude.{
  ◌≡◌, refl, subst, Bool, true, false, Option, none, some, [], ◌∷◌, if◌then◌else◌, str_eq, ok, err,
  bind_elim, ok-inj,
}
use intj.Annotation.{unsupported_annotation}
use intj.Annotation.Types.{TypeValue, TypeField, normalize_type_field}
use intj.Annotation.Merge.{
  RawAnnotation, empty, tensor_like, on_argument, on_constexpr, tl_constexpr, int_class, typed,
  text, other, KernelParam, Source, argument_source, constexpr_source, argument_of,
  annotation_source,
}
use intj.Annotation.Resolve.{
  Reading, read_source, tensor_kind, read_annotation, undo_text, read_inline, read_extra,
}

-- A field that a constructor of an annotation let pass.
abbrev pub IsChecked : TypeField → Type 0
IsChecked field = normalize_type_field field ≡ ok field

-- A `Constexpr` object in the place of an annotation came from its constructor.
abbrev pub IsBuilt : RawAnnotation → Type 0
IsBuilt (on_constexpr a) = IsChecked a.type_field
IsBuilt raw = Unit

abbrev pub IsBuiltSource : Option Source → Type 0
IsBuiltSource (some (constexpr_source a)) = IsChecked a.type_field
IsBuiltSource source = Unit

pub annotation_source-IsBuilt :
    (raw : RawAnnotation) {source : Option Source}
    → IsBuilt raw
    → annotation_source raw ≡ ok source
    → IsBuiltSource source
unfolding annotation_source
annotation_source-IsBuilt empty b e = subst IsBuiltSource (ok-inj e) tt
annotation_source-IsBuilt (tensor_like o) b e = cc
annotation_source-IsBuilt (on_argument a) b e = subst IsBuiltSource (ok-inj e) tt
annotation_source-IsBuilt (on_constexpr a) b e = subst IsBuiltSource (ok-inj e) b
annotation_source-IsBuilt tl_constexpr b e = subst IsBuiltSource (ok-inj e) refl
annotation_source-IsBuilt int_class b e = subst IsBuiltSource (ok-inj e) tt
annotation_source-IsBuilt (typed TypeValue.null) b e = subst IsBuiltSource (ok-inj e) tt
annotation_source-IsBuilt (typed (TypeValue.dtype n)) b e = subst IsBuiltSource (ok-inj e) tt
annotation_source-IsBuilt (typed (TypeValue.pointer g c i)) b e = subst IsBuiltSource (ok-inj e) tt
annotation_source-IsBuilt (typed TypeValue.auto) b e = cc
annotation_source-IsBuilt (typed TypeValue.other) b e = cc
annotation_source-IsBuilt other b e = cc
annotation_source-IsBuilt (text s) b e = text_case (str_eq s "int") e
  where
    text_case :
        (is_int : Bool) {source : Option Source}
        → (if is_int
            then ok (some (argument_source (argument_of (TypeField.one (TypeValue.dtype "int32")))))
            else err unsupported_annotation)
          ≡ ok source
        → IsBuiltSource source
    text_case true e = subst IsBuiltSource (ok-inj e) tt
    text_case false e = cc

pub read_annotation-IsBuilt :
    (raw : RawAnnotation) {reading : Reading}
    → IsBuilt raw
    → read_annotation raw ≡ ok reading
    → IsBuiltSource reading.0
unfolding read_annotation
read_annotation-IsBuilt raw b e = by_kind (tensor_kind raw) e
  where
    by_kind :
        (kind : Option Bool) {reading : Reading}
        → elim kind [ some optional ↦ ok (none, optional ∷ []) | none ↦ read_source raw ]
          ≡ ok reading
        → IsBuiltSource reading.0
    by_kind (some optional) e = subst (λ (r : Reading). IsBuiltSource r.0) (ok-inj e) tt
    by_kind none e = bind_elim (annotation_source raw) _ e λ source read done.
        subst (λ (r : Reading). IsBuiltSource r.0) (ok-inj done)
          (annotation_source-IsBuilt raw b read)

undo_text-IsBuilt :
    (is_constexpr : Bool) (raw : RawAnnotation) → IsBuilt raw → IsBuilt (undo_text is_constexpr raw)
undo_text-IsBuilt false raw b = b
undo_text-IsBuilt true (text s) b = tt
undo_text-IsBuilt true (on_constexpr a) b = b
undo_text-IsBuilt true empty b = tt
undo_text-IsBuilt true (tensor_like o) b = tt
undo_text-IsBuilt true (on_argument a) b = tt
undo_text-IsBuilt true tl_constexpr b = tt
undo_text-IsBuilt true int_class b = tt
undo_text-IsBuilt true (typed ty) b = tt
undo_text-IsBuilt true other b = tt

pub read_inline-IsBuilt :
    (p : KernelParam) {reading : Reading}
    → IsBuilt p.annotation
    → read_inline p ≡ ok reading
    → IsBuiltSource reading.0
unfolding read_inline
read_inline-IsBuilt p b e = by_type p.triton_type e
  where
    by_type :
        (ty : Option TypeValue) {reading : Reading}
        → elim ty [
          | some ty ↦ ok (some (argument_source (argument_of (TypeField.one ty))), [])
          | none ↦ read_annotation (undo_text p.is_constexpr p.annotation)
        ]
          ≡ ok reading
        → IsBuiltSource reading.0
    by_type (some ty) e = subst (λ (r : Reading). IsBuiltSource r.0) (ok-inj e) tt
    by_type none e =
        read_annotation-IsBuilt (undo_text p.is_constexpr p.annotation)
          (undo_text-IsBuilt p.is_constexpr p.annotation b) e

abbrev pub IsBuiltIf : Option RawAnnotation → Type 0
IsBuiltIf none = Unit
IsBuiltIf (some raw) = IsBuilt raw

pub read_extra-IsBuilt :
    (extra : Option RawAnnotation) {reading : Reading}
    → IsBuiltIf extra
    → read_extra extra ≡ ok reading
    → IsBuiltSource reading.0
unfolding read_extra
read_extra-IsBuilt none b e = subst (λ (r : Reading). IsBuiltSource r.0) (ok-inj e) tt
read_extra-IsBuilt (some raw) b e = read_annotation-IsBuilt raw b e
