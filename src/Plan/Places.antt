-- ===== src/Plan/Places.antt =====
-- About plan.py, `_bind`: what binding changes of the parameters.
use intj.Prelude.{
  ℕ, ◌≡◌, refl, subst, String, Bool, true, not, ◌&&◌, ◌||◌, Option, none, some, List, [], ◌∷◌, map,
  any, All, Result, ok, ◌>>=◌, bind_elim, refuse-eq-ok, ok-inj, arith, if◌then◌else◌, Bool-cases,
  inl, inr,
}
use intj.Prelude.Dict.{Dict, keys}
use intj.Prelude.Names.{contains}
use intj.Values.{Value}
use intj.CompileOptions.{is_none}
use intj.Annotation.{CanonicalAnnotation, ResolvedParam, is_some}
use intj.Specialization.KeyFields.{is_public, cache_key_fields}
use intj.Specialization.Calls.{Param, next_if, takes_objects, call_layout_from, call_layout}
use intj.Specialization.KeyLayout.{param_fields}
use intj.Plan.Options.{BuildError, unknown_bound, missing_bound, bad_tensor, not_none, GivenMapping}
use intj.Plan.Bind.{
  Bound, check_device, bind_values_of, bound_names, is_tensor_bound, value_at, only_none_type,
  tensor_type, bind_tensor, bind_params, bound_values, hidden_values, bind,
}

-- The type of a bound tensor is known.
abbrev pub is_typed : CanonicalAnnotation → Bool
is_typed a = not (is_tensor_bound a.bind_value) || is_some a.types

-- A parameter as it is called and keyed, before and after.
record Twin (p q : ResolvedParam) : Type 0 where
  name : q.name ≡ p.name
  index : q.index ≡ p.index
  is_called : is_public q.annotation ≡ is_public p.annotation
  is_memoized : takes_objects q.annotation ≡ takes_objects p.annotation
  fields : cache_key_fields q.annotation ≡ cache_key_fields p.annotation
  typed : is_typed q.annotation ≡ true

Twins : List ResolvedParam → List ResolvedParam → Type 0
Twins [] [] = Unit
Twins [] (q ∷ qs) = ⊥
Twins (p ∷ ps) [] = ⊥
Twins (p ∷ ps) (q ∷ qs) = Twin p q × Twins ps qs

Twin-same : (p : ResolvedParam) → is_typed p.annotation ≡ true → Twin p p
Twin-same p h = record {
  name = refl;
  index = refl;
  is_called = refl;
  is_memoized = refl;
  fields = refl;
  typed = h;
}

-- A bound parameter is not called, and has no key fields, whatever its types.
Twin-typed :
    (p : ResolvedParam) (types : List (Option String))
    → is_tensor_bound p.annotation.bind_value ≡ true
    → Twin p (record p { annotation = record p.annotation { types = some types } })
unfolding cache_key_fields
Twin-typed p types h = record {
  name = refl;
  index = refl;
  is_called = refl;
  is_memoized = ground arith;
  fields = ground arith;
  typed = ground arith;
}

bind_tensor-Twin :
    (dtype_of : Value → Option (Option String)) (p : ResolvedParam) (v : Value) {q : ResolvedParam}
    → is_tensor_bound p.annotation.bind_value ≡ true
    → bind_tensor dtype_of p v ≡ ok q
    → Twin p q
unfolding bind_tensor
bind_tensor-Twin dtype_of p v {q} h e =
    let h1 =
      (refuse-eq-ok (not (is_none v) && not (is_some (dtype_of v))) (bad_tensor p.name) _ e).1 in
    let h2 =
      (refuse-eq-ok (only_none_type p.annotation.types && not (is_none v)) (not_none p.name) _
        h1).1 in
    by_types p.annotation.types refl h2
  where
    by_types :
        (o : Option (List (Option String)))
        → p.annotation.types ≡ o
        → ◌≡◌ {A = Result BuildError ResolvedParam}
            (elim o [
              | none ↦
                  (tensor_type dtype_of p.name v >>= λ ty.
                  ok (record p { annotation = record p.annotation { types = some (ty ∷ []) } }))
              | some types ↦ ok p
            ])
            (ok q)
        → Twin p q
    by_types (some types) k f = subst (Twin p) (ok-inj f) (Twin-same p (ground arith))
    by_types none k f =
        bind_elim (tensor_type dtype_of p.name v) _ f
          λ ty hty last. subst (Twin p) (ok-inj last) (Twin-typed p (ty ∷ []) h)

bind_params-Twins :
    (dtype_of : Value → Option (Option String)) (values : Dict Value) (ps : List ResolvedParam)
    {qs : List ResolvedParam}
    → bind_params dtype_of values ps ≡ ok qs
    → Twins ps qs
unfolding bind_params Twins
bind_params-Twins dtype_of values [] {qs} e = subst (Twins []) (ok-inj e) tt
bind_params-Twins dtype_of values (p ∷ ps) {qs} e =
    bind_elim
      (if is_tensor_bound p.annotation.bind_value
        then (value_at values p.name >>= bind_tensor dtype_of p)
        else ok p)
      _ e
      λ q hq h1. bind_elim (bind_params dtype_of values ps) _ h1 λ rest hrest last.
        subst (Twins (p ∷ ps)) (ok-inj last) (
          elim (Bool-cases (is_tensor_bound p.annotation.bind_value)) [
            | inl bound ↦
                bind_elim (value_at values p.name) (bind_tensor dtype_of p) (rw bound at hq)
                  λ v hv hb. bind_tensor-Twin dtype_of p v bound hb
            | inr free ↦ subst (Twin p) (ok-inj (rw free at hq)) (Twin-same p (ground arith))
          ],
          bind_params-Twins dtype_of values ps hrest,
        )

-- How a parameter is numbered.
abbrev pub place : Param → String × ℕ × Option ℕ × Option ℕ
place p = (p.name, p.index, p.call_index, p.memo)

Twins-place :
    (i k : ℕ) (ps qs : List ResolvedParam)
    → Twins ps qs
    → map place (call_layout_from i k qs) ≡ map place (call_layout_from i k ps)
unfolding call_layout_from Twins
Twins-place i k [] [] t = refl
Twins-place i k [] (q ∷ qs) t = absurd t
Twins-place i k (p ∷ ps) [] t = absurd t
Twins-place i k (p ∷ ps) (q ∷ qs) (t, ts) =
    let rest =
      Twins-place (next_if (is_public p.annotation) i) (next_if (takes_objects p.annotation) k) ps
        qs ts in
    rw (t.is_memoized, t.is_called, t.name, t.index, rest) refl

Twins-fields :
    (i k i' k' : ℕ) (ps qs : List ResolvedParam)
    → Twins ps qs
    → param_fields (call_layout_from i k qs) ≡ param_fields (call_layout_from i' k' ps)
unfolding call_layout_from param_fields Twins
Twins-fields i k i' k' [] [] t = refl
Twins-fields i k i' k' [] (q ∷ qs) t = absurd t
Twins-fields i k i' k' (p ∷ ps) [] t = absurd t
Twins-fields i k i' k' (p ∷ ps) (q ∷ qs) (t, ts) =
    rw
      (
        t.fields,
        t.index,
        Twins-fields (next_if (is_public q.annotation) i) (next_if (takes_objects q.annotation) k)
            (next_if (is_public p.annotation) i') (next_if (takes_objects p.annotation) k') ps qs
            ts,
      )
      refl

Twins-typed :
    (ps qs : List ResolvedParam) → Twins ps qs → All (λ q. is_typed q.annotation ≡ true) qs
unfolding Twins
Twins-typed [] [] t = tt
Twins-typed [] (q ∷ qs) t = absurd t
Twins-typed (p ∷ ps) [] t = absurd t
Twins-typed (p ∷ ps) (q ∷ qs) (t, ts) = (t.typed, Twins-typed ps qs ts)

-- Where `_bind` succeeds, the parameters keep their names and numbers in the call and in the memos, their
-- key fields stay the same, and each one that is bound to a tensor has known types.
pub bind-place :
    (dtype_of : Value → Option (Option String)) (device : Value) (given : GivenMapping)
    (resolved : List ResolvedParam) (b : Bound)
    → bind dtype_of device given resolved ≡ ok b
    → (map place (call_layout b.params) ≡ map place (call_layout resolved))
      × (param_fields (call_layout b.params) ≡ param_fields (call_layout resolved))
      × All (λ q. is_typed q.annotation ≡ true) b.params
unfolding bind call_layout
bind-place dtype_of device given resolved b e = bind_elim (check_device device) _ e λ ordinal ho h1.
    bind_elim (bind_values_of given) _ h1 λ values hv h2.
      let names = bound_names resolved in
      let h3 =
        (refuse-eq-ok (any (λ k. not (contains names k)) (keys values)) unknown_bound _ h2).1 in
      let h4 =
        (refuse-eq-ok (any (λ n. not (contains (keys values) n)) names) missing_bound _ h3).1 in
      bind_elim (bind_params dtype_of values resolved) _ h4 λ params hp h5.
        bind_elim (bound_values values names params) _ h5 λ fixed_values hf h6.
          bind_elim (hidden_values values names params) _ h6 λ hidden hh last.
            let t = bind_params-Twins dtype_of values resolved hp in
            subst
              (λ (z : Bound).
                (map place (call_layout z.params) ≡ map place (call_layout resolved))
                × (param_fields (call_layout z.params) ≡ param_fields (call_layout resolved))
                × All (λ q. is_typed q.annotation ≡ true) z.params)
              (ok-inj last)
              (
                Twins-place 0 0 resolved params t,
                Twins-fields 0 0 0 0 resolved params t,
                Twins-typed resolved params t,
              )
