-- ===== src/Tuning/Levels.antt =====
-- About tuning.py, `analyze`: the levels of a plan.
use intj.Prelude.{
  ℕ, ◌+◌, ◌≤◌, ◌<◌, String, ◌≡◌, sym, ap, subst, ◌∙◌, some, List, [], ◌∷◌, All, All-mono, arith,
  str_eq, Bool-cases, some-inj, inl, inr, ok, bind_elim, ok-inj,
}
use intj.Prelude.Dict.{lookup}
use intj.Tuning.{
  Dependent, Computed, JitParam, Layer, Kernel, jit_function, layer, unknown, TuningPlan, Role,
  Analysis, unwrap, start_info, inner_assigned, layer_loop, start, analyze_chain, analyze,
}
use intj.Tuning.Steps.{peak, IsStored, IsSettled, Inv}
use intj.Tuning.Loops.{LayerReadsForward, layer_loop-Inv}

-- At the start nothing is at a level above 0, or known after a lookup.
start_info-zero :
    (fixed : List String) (params : List JitParam) (k : String) (r : Role)
    → lookup k (start_info fixed params) ≡ some r
    → (r.level ≡ 0) × (r.known ≡ 0)
unfolding lookup
start_info-zero fixed [] k r e = cc
start_info-zero fixed (p ∷ rest) k r e = elim (Bool-cases (str_eq p.name k)) [
  | inl hit ↦
      let same = some-inj _ r (rw hit at e) in
      (ap (λ (r : Role). r.level) (sym same), ap (λ (r : Role). r.known) (sym same))
  | inr miss ↦ start_info-zero fixed rest k r (rw miss at e)
]

start-Inv :
    (fixed : List String) (params : List JitParam) (future : List String)
    → Inv future (start fixed params)
start-Inv fixed params future = record {
  fresh = λ k r e x. (start_info-zero fixed params k r e).1;
  level_le = λ k r e. omega (arith, (start_info-zero fixed params k r e).0);
  stored = tt;
  settled = tt;
}

-- A dependent value of this name stands at a level below.
abbrev pub IsBelow : ℕ → String → Dependent → Type 0
IsBelow level read d = d.name ≡ read → d.level < level

-- Every level has a lookup, and a computed key reads stored values of lower levels only.
pub record IsLevelled (plan : TuningPlan) : Type 0 where
  pub some_level : 0 < plan.levels
  pub dependent_in_range : All (λ d. d.level < plan.levels) plan.dependent
  pub computed_in_range : All (λ c. c.level < plan.levels) plan.computed
  pub reads_below :
      All (λ c. All (λ n. All (IsBelow c.level n) plan.dependent) c.heuristic.inputs) plan.computed

peak-bounds : (cs : List Computed) (bound : ℕ) → peak cs ≤ bound → All (λ c. c.level < 1 + bound) cs
peak-bounds [] bound h = tt
peak-bounds (c ∷ cs) bound h = (omega arith, peak-bounds cs bound (omega arith))

IsSettled-IsBelow :
    (s : Analysis) (level : ℕ) (read : String)
    → IsSettled s.info [] level read
    → (d : Dependent) → IsStored s d
    → IsBelow level read d
IsSettled-IsBelow s level read settled d stored named =
    omega (arith, stored.next, settled.known, ap (λ (r : Role). r.known) same)
  where
    same : stored.role ≡ settled.role
    same = some-inj _ _ (sym stored.found ∙ ap (λ k. lookup k s.info) named ∙ settled.found)

chain-IsLevelled :
    (fixed : List String) (layers : List Layer) (innermost : Kernel) {plan : TuningPlan}
    → All LayerReadsForward layers
    → analyze_chain fixed layers innermost ≡ ok plan
    → IsLevelled plan
unfolding analyze_chain
chain-IsLevelled fixed [] innermost forward e = cc
chain-IsLevelled fixed (l ∷ layers) (layer m k) forward e = cc
chain-IsLevelled fixed (l ∷ layers) unknown forward e = cc
chain-IsLevelled fixed (l ∷ layers) (jit_function params) forward e =
    bind_elim (layer_loop params (l ∷ layers) (start fixed params)) _ e λ s run done.
      let inv =
        layer_loop-Inv params (l ∷ layers) (start fixed params) forward
          (start-Inv fixed params (inner_assigned (l ∷ layers))) run in
      subst IsLevelled (ok-inj done) (record {
        some_level = omega arith;
        dependent_in_range = All-mono _ _ s.dependent (λ d h. omega (arith, h.below)) inv.stored;
        computed_in_range = peak-bounds s.computed (peak s.computed) (omega arith);
        reads_below =
            All-mono _ _ s.computed
              (λ c. All-mono _ _ c.heuristic.inputs (λ n settled.
                All-mono _ _ s.dependent (IsSettled-IsBelow s c.level n settled) inv.stored))
              inv.settled;
      })

-- If no heuristic reads what a later entry of its own layer assigns, a plan that `analyze` returns is
-- levelled: each dependent value and each computed key stands at a level that has a lookup, and a
-- computed key reads only dependent values of levels below its own.
pub analyze-IsLevelled :
    (kernel : Kernel) (fixed : List String) {plan : TuningPlan}
    → All LayerReadsForward (unwrap kernel).0
    → analyze kernel fixed ≡ ok plan
    → IsLevelled plan
unfolding analyze
analyze-IsLevelled kernel fixed forward e =
    chain-IsLevelled fixed (unwrap kernel).0 (unwrap kernel).1 forward e
