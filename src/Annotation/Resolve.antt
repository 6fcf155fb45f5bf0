-- ===== src/Annotation/Resolve.antt =====
-- annotation.py: `_merge_annotations`, over all parameters of a kernel.
use intj.Prelude.{
  ℕ, suc, String, Bool, true, not, ◌&&◌, Option, none, some, List, [], ◌∷◌, ◌++◌, map, any, Result,
  ok, ◌>>=◌, ◌>>◌, refuse,
}
use intj.Prelude.Dict.{Dict, lookup, keys}
use intj.Prelude.Names.{contains}
use intj.Annotation.{AnnotationError, unknown_parameter, conflicting_tensor, is_some, ResolvedParam}
use intj.Annotation.Types.{TypeField}
use intj.Annotation.Merge.{
  RawAnnotation, tensor_like, tl_constexpr, text, KernelParam, Source, argument_source, argument_of,
  annotation_source, merge_sources,
}
use intj.Annotation.Canonical.{canonical_annotation}

-- A source, and the tensor annotation in its place, by whether it is optional.
abbrev pub Reading : Type 0
Reading = Option Source × List Bool

abbrev pub read_source : RawAnnotation → Result AnnotationError Reading
read_source raw = annotation_source raw >>= λ source. ok (source, [])

-- Whether the annotation is a tensor's, and then whether it is optional.
abbrev pub tensor_kind : RawAnnotation → Option Bool
tensor_kind (tensor_like optional) = some optional
tensor_kind raw = none

-- What an annotation means: a tensor's is no source of its own.
unfoldable pub read_annotation : RawAnnotation → Result AnnotationError Reading
read_annotation raw = elim (tensor_kind raw) [
  | some optional ↦ ok (none, optional ∷ [])
  | none ↦ read_source raw
]

-- A legacy constexpr string is `tl.constexpr`.
abbrev pub undo_text : Bool → RawAnnotation → RawAnnotation
undo_text true (text s) = tl_constexpr
undo_text is_constexpr raw = raw

-- The inline annotation.
unfoldable pub read_inline : KernelParam → Result AnnotationError Reading
read_inline p = elim p.triton_type [
  | some ty ↦ ok (some (argument_source (argument_of (TypeField.one ty))), [])
  | none ↦ read_annotation (undo_text p.is_constexpr p.annotation)
]

unfoldable pub read_extra : Option RawAnnotation → Result AnnotationError Reading
read_extra none = ok (none, [])
read_extra (some raw) = read_annotation raw

-- `len(tensor_kinds) > 1`
abbrev pub disagree : List Bool → Bool
disagree kinds = any (λ optional. optional) kinds && any (λ optional. not optional) kinds

unfoldable pub merge_param :
    (fp_types : List String)
    → (index : ℕ) → KernelParam
    → Option RawAnnotation
    → Result AnnotationError ResolvedParam
merge_param fp_types index p extra = do
  inline ← read_inline p
  other ← read_extra extra
  refuse (disagree (inline.1 ++ other.1)) conflicting_tensor
  merged ← merge_sources fp_types p inline.0 other.0
  annotation ← canonical_annotation fp_types (is_some p.triton_type) (inline.1 ++ other.1) merged
  ok (record { name = p.name; index = index; annotation = annotation; baked = merged.baked })

unfoldable pub merge_params :
    (fp_types : List String)
    → (index : ℕ) → List KernelParam
    → Dict RawAnnotation
    → Result AnnotationError (List ResolvedParam)
merge_params fp_types index [] extra = ok []
merge_params fp_types index (p ∷ rest) extra = do
  resolved ← merge_param fp_types index p (lookup p.name extra)
  others ← merge_params fp_types (suc index) rest extra
  ok (resolved ∷ others)

-- `_merge_annotations`
unfoldable pub merge_annotations :
    (fp_types : List String)
    → List KernelParam
    → Dict RawAnnotation
    → Result AnnotationError (List ResolvedParam)
merge_annotations fp_types params extra = do
  refuse (any (λ name. not (contains (map (λ p. p.name) params) name)) (keys extra))
      unknown_parameter
  merge_params fp_types 0 params extra
