-- ===== src/Tuning/Render/Scalars.antt =====
-- About tuning.py, `tuning_render` and `c_scalar`: the checks of the config values.
use intj.Prelude.{
  Result, if◌then◌else◌, String, ◌≢◌, Bool, true, false, List, [], ◌∷◌, Bool-cases, inl, inr, ok,
  err, refuse, bind_ne,
}
use intj.Prelude.Dict.{Dict}
use intj.Prelude.Names.{contains}
use intj.Values.{Value}
use intj.Tuning.{Layer, autotuner, heuristics}
use intj.Tuning.Render.{
  RenderError, not_a_c_scalar, c_scalar, check_value, check_config, check_configs, check_layers,
}

module _ (bug : RenderError) (other : (n : String) → not_a_c_scalar n ≢ bug) where
  pub refuse-ne : (test : Bool) (e : RenderError) → e ≢ bug → refuse test e ≢ err bug
  refuse-ne true e h p = h (cc)
  refuse-ne false e h p = cc

  refused-ne :
      (name : String) → ◌≢◌ {A = Result RenderError Value} (err (not_a_c_scalar name)) (err bug)
  refused-ne name p = other name (cc)

  int-ne :
      (test : Bool) (name : String) (value : Value)
      → (if test then ok value else err (not_a_c_scalar name)) ≢ err bug
  int-ne true name value p = cc
  int-ne false name value p = refused-ne name p

  c_scalar-ne : (name : String) (value : Value) → c_scalar name value ≢ err bug
  unfolding c_scalar
  c_scalar-ne name (Value.bool b) p = cc
  c_scalar-ne name (Value.int v) p = int-ne _ name (Value.int v) p
  c_scalar-ne name Value.null p = refused-ne name p
  c_scalar-ne name (Value.float f) p = refused-ne name p
  c_scalar-ne name (Value.str s) p = refused-ne name p
  c_scalar-ne name (Value.dtype n) p = refused-ne name p
  c_scalar-ne name (Value.jit m q k) p = refused-ne name p
  c_scalar-ne name (Value.object n) p = refused-ne name p

  check_value-ne :
      (names : List String) (name : String) (value : Value) → check_value names name value ≢ err bug
  check_value-ne names name value = elim (Bool-cases (contains names name)) [
    | inl read ↦ rw read (bind_ne bug (c_scalar name value) _ (c_scalar-ne name value) (λ _ p. cc))
    | inr other ↦ rw other (λ p. cc)
  ]

  check_config-ne :
      (names : List String) (config : Dict Value) → check_config names config ≢ err bug
  unfolding check_config
  check_config-ne names [] = λ p. cc
  check_config-ne names ((name, value) ∷ rest) =
      bind_ne bug (check_value names name value) _ (check_value-ne names name value)
        (λ _. check_config-ne names rest)

  check_configs-ne :
      (names : List String) (configs : List (Dict Value)) → check_configs names configs ≢ err bug
  unfolding check_configs
  check_configs-ne names [] = λ p. cc
  check_configs-ne names (c ∷ cs) =
      bind_ne bug (check_config names c) _ (check_config-ne names c)
        (λ _. check_configs-ne names cs)

  pub check_layers-ne :
      (names : List String) (layers : List Layer) → check_layers names layers ≢ err bug
  unfolding check_layers
  check_layers-ne names [] = λ p. cc
  check_layers-ne names (autotuner ks configs ∷ ls) =
      bind_ne bug (check_configs names configs) _ (check_configs-ne names configs)
        (λ _. check_layers-ne names ls)
  check_layers-ne names (heuristics values ∷ ls) = check_layers-ne names ls
