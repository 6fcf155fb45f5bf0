-- ===== src/Tuning/Marking/Disjoint.antt =====
-- About tuning.py, `plan_tuning`: the marks of the parameters.
use intj.Prelude.{
  String, ◌≡◌, refl, ap, subst, ◌∙◌, Bool, true, false, ◌&&◌, List, [], ◌∷◌, map, any, All, arith,
  Bool-cases, inl, inr, Result, ok, err, refuse, bind_elim, after-eq-ok, ok-inj,
}
use intj.Prelude.Names.{contains, contains-append, contains-All}
use intj.Annotation.{ResolvedParam}
use intj.Tuning.{Kernel, TuningPlan, TuningError, unwrap, is_runtime, analyze}
use intj.Tuning.Render.{tuned_names}
use intj.Tuning.Marking.{
  needs_gpu, annotates_tuned, sets_tuned, several_ctas, has_ctas, config_options, lift_plan,
  check_unbound, fixed_names, mark, plan_tuning,
}
use intj.Tuning.Marking.Apart.{chain-Apart}

map-id : (xs : List String) → map (λ x. x) xs ≡ xs
map-id [] = refl
map-id (x ∷ xs) = ap (λ (ys : List String). x ∷ ys) (map-id xs)

module _ (fixed : List String) (chain : Kernel) {plan : TuningPlan}
    (analyzed : analyze chain fixed ≡ ok plan) where
  exact-tuned :
      (n : String) → contains plan.exact_keys n ≡ true → contains (tuned_names plan) n ≡ false
  unfolding analyze
  exact-tuned n keyed =
      let (params, exact, stored, computed) =
        chain-Apart fixed (unwrap chain).0 (unwrap chain).1 analyzed in
      let runtime =
        contains-All (λ k. k) (λ k. is_runtime params k ≡ true) plan.exact_keys n exact
          (ap (λ ks. contains ks n) (map-id plan.exact_keys) ∙ keyed) in
      let splits =
        contains-append (map (λ d. d.name) plan.dependent) (map (λ c. c.name) plan.computed) n in
      elim (Bool-cases (contains (map (λ d. d.name) plan.dependent) n)) [
        | inl here ↦ cc (
          runtime,
          contains-All (λ d. d.name) (λ k. is_runtime params k ≡ false) plan.dependent n stored
              here,
        )
        | inr absent ↦ elim (Bool-cases (contains (map (λ c. c.name) plan.computed) n)) [
          | inl here ↦ cc (
            runtime,
            contains-All (λ c. c.name) (λ k. is_runtime params k ≡ false) plan.computed n computed
                here,
          )
          | inr absent' ↦ ground (arith, splits, absent, absent')
        ]
      ]

  mark-disjoint :
      (resolved : List ResolvedParam)
      → All (λ p. p.annotation.tuned && p.annotation.exact_key ≡ false) (map (mark plan) resolved)
  mark-disjoint [] = tt
  mark-disjoint (p ∷ rest) = (
    elim (Bool-cases (contains plan.exact_keys p.name)) [
      | inl keyed ↦ ground (arith, keyed, exact-tuned p.name keyed)
      | inr other ↦ ground (arith, other)
    ],
    mark-disjoint rest,
  )

lift_plan-eq-ok : {A : Type 0} (r : Result TuningError A) {a : A} → lift_plan r ≡ ok a → r ≡ ok a
lift_plan-eq-ok (ok x) e = ap ok (ok-inj e)
lift_plan-eq-ok (err x) e = cc

-- Of the parameters that `plan_tuning` marks, none is both tuned and keyed by its exact value.
pub plan_tuning-disjoint :
    (chain : Kernel) (resolved : List ResolvedParam) (extra options : List String) (no_gpu : Bool)
    (plan : TuningPlan) (marked : List ResolvedParam)
    → plan_tuning chain resolved extra options no_gpu ≡ ok (plan, marked)
    → All (λ p. p.annotation.tuned && p.annotation.exact_key ≡ false) marked
unfolding plan_tuning
plan_tuning-disjoint chain resolved extra options no_gpu plan marked e =
    bind_elim (lift_plan (analyze chain (fixed_names resolved))) _
      (after-eq-ok (refuse no_gpu needs_gpu) _ e)
      λ found analyzed more.
        let more = after-eq-ok (check_unbound resolved) _ more in
        let more =
          after-eq-ok (refuse (any (contains (tuned_names found)) extra) annotates_tuned) _ more in
        let more =
          after-eq-ok (refuse (any (contains (tuned_names found)) options) sets_tuned) _ more in
        let done =
          after-eq-ok (refuse (any has_ctas (config_options found.layers resolved)) several_ctas) _
            more in
        subst
          (λ (r : TuningPlan × List ResolvedParam).
            All (λ p. p.annotation.tuned && p.annotation.exact_key ≡ false) r.1)
          (ok-inj done)
          (mark-disjoint (fixed_names resolved) chain
            (lift_plan-eq-ok (analyze chain (fixed_names resolved)) analyzed) resolved)
