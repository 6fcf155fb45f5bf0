-- ===== src/Specialization/KeyLayout/Dynamic.antt =====
-- About specialization.py, `key_layout`: the slots of the dynamic values.
use intj.Prelude.{
  ℕ, ◌+◌, String, ◌≡◌, refl, sym, subst, ◌∙◌, true, ◌&&◌, List, [], ◌∷◌, ◌++◌, map, any, All,
  All-append, All-mono, enumerate_from, range_from, concat_map, ok, bind_elim, ok-inj, arith,
}
use intj.Prelude.Int.{negsuc}
use intj.Annotation.{DeviceBinding, FieldKind, exact_kind, exact, is_some}
use intj.Specialization.KeyFields.{dynamic_key_fields}
use intj.Specialization.KeyFields.Widths.{IsKeyable}
use intj.Specialization.Placing.{Entry, layout_fields}
use intj.Specialization.Placing.Alignment.{HasWidth, IsAligned, layout_fields-IsAligned}
use intj.Specialization.Calls.{Param}
use intj.Specialization.KeyLayout.{
  DynamicSlot, KeyLayout, entries, param_fields, computed_key_fields, dynamic_fields,
  computed_offsets, memos, slot, key_layout,
}
use intj.Specialization.KeyLayout.Success.{
  is_key, param_fields-AreWide, placed-found, any-append, layout_fields-keeps,
  computed_key_fields-HasWidth, dynamic_fields-HasWidth,
}

-- Both places are known.
abbrev pub IsPlaced : DynamicSlot → Type 0
IsPlaced s = is_some s.value_offset && is_some s.kind_offset ≡ true

-- Both fields of dynamic value `k` are among the fields.
abbrev HasSlot : List Entry → ℕ → Type 0
HasSlot fields k =
    (any (is_key (negsuc k) exact) fields ≡ true)
    × (any (is_key (negsuc k) exact_kind) fields ≡ true)

slots-IsPlaced :
    (fields : List Entry) (computed0 memo : ℕ) (es : List (ℕ × String))
    → All IsAligned fields
    → All (λ e. HasSlot fields (computed0 + e.0)) es
    → All IsPlaced (map (slot fields computed0 memo) es)
slots-IsPlaced fields computed0 memo [] aligned h = tt
slots-IsPlaced fields computed0 memo (e ∷ es) aligned h =
    let (value, is_value) = placed-found fields (negsuc (computed0 + e.0)) exact aligned h.0.0 in
    let (kind, is_kind) = placed-found fields (negsuc (computed0 + e.0)) exact_kind aligned h.0.1 in
    (rw (is_value, is_kind) refl, slots-IsPlaced fields computed0 memo es aligned h.1)

abbrev fields_of : ℕ → ℕ × String → List Entry
fields_of count e = entries (negsuc (count + e.0)) (dynamic_key_fields e.1)

dynamic-HasSlot :
    (count : ℕ) (es : List (ℕ × String))
    → All (λ e. HasSlot (concat_map (fields_of count) es) (count + e.0)) es
dynamic-HasSlot count [] = tt
dynamic-HasSlot count (e ∷ es) = (
  (ground arith, ground arith),
  All-mono _ _ es (λ x h. (ground (arith, h.0), ground (arith, h.1))) (dynamic-HasSlot count es),
)

-- In a key layout of a call whose annotations can be placed, each dynamic value has an offset for its
-- value and one for its kind.
pub key_layout-dynamic :
    (call : List Param) (binding : DeviceBinding) (computed0 : ℕ) (dynamic : List String)
    (layout : KeyLayout)
    → All (λ p. IsKeyable p.annotation) call
    → key_layout call binding computed0 dynamic ≡ ok layout
    → All IsPlaced layout.dynamic
unfolding key_layout
key_layout-dynamic call binding computed0 dynamic layout keyable e =
    bind_elim (param_fields call) _ e λ fields are_fields more.
      let computed = computed_key_fields computed0 in
      let others = dynamic_fields computed0 dynamic in
      let all_fields = fields ++ computed ++ others in
      let result = layout_fields all_fields binding in
      bind_elim (computed_offsets result.fields (range_from 0 computed0)) _ more
        λ offsets found done.
          let (fields', are_fields', wide) = param_fields-AreWide call keyable in
          let wide_fields : All HasWidth fields =
            subst (All HasWidth) (ok-inj (sym are_fields' ∙ are_fields)) wide in
          let aligned = layout_fields-IsAligned all_fields binding (
            All-append HasWidth (fields ++ computed) others
              (All-append HasWidth fields computed wide_fields
                (computed_key_fields-HasWidth computed0))
              (dynamic_fields-HasWidth computed0 dynamic)) in
          let there : All (λ e. HasSlot result.fields (computed0 + e.0))
              (enumerate_from 0 dynamic) =
            All-mono _ _ (enumerate_from 0 dynamic)
              (λ x h. (
                kept (fields ++ computed) others exact x.0 h.0,
                kept (fields ++ computed) others exact_kind x.0 h.1,
              ))
              (dynamic-HasSlot computed0 (enumerate_from 0 dynamic)) in
          subst (λ (k : KeyLayout). All IsPlaced k.dynamic) (ok-inj done)
            (slots-IsPlaced result.fields computed0 (memos call) (enumerate_from 0 dynamic) aligned
              there)
  where
    kept :
        (before after : List Entry) (kind : FieldKind) (j : ℕ)
        → any (is_key (negsuc (computed0 + j)) kind) after ≡ true
        → any
            (is_key (negsuc (computed0 + j)) kind)
            (layout_fields (before ++ after) binding).fields
          ≡ true
    kept before after kind j h =
        layout_fields-keeps (negsuc (computed0 + j)) kind (before ++ after) binding
        ∙ any-append (is_key (negsuc (computed0 + j)) kind) before after
        ∙ ground (arith, h)
