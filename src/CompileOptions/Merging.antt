-- ===== src/CompileOptions/Merging.antt =====
-- About compile_options.py: `knob_options` over merged options, and `resolve`.
use intj.Prelude.{
  String, ◌≡◌, refl, sym, ap, subst, ◌∙◌, Bool, true, false, not, ◌&&◌, ◌||◌, Option, none, some,
  List, [], ◌∷◌, any, Result, ok, refuse-eq-ok, bind_elim, ok-inj, arith, str_eq, eq_iff,
  if◌then◌else◌, Bool-cases, Option-cases, inl, inr,
}
use intj.Prelude.Dict.{Dict, lookup, insert, get_or, keys, lookup-insert}
use intj.Prelude.Names.{contains, IsDistinct}
use intj.Values.{Value}
use intj.Annotation.{is_some}
use intj.CompileOptions.{
  Knob, debug_knob, instrumentation_knob, casts_knob, or_value, is_none, apply_knob, apply_knobs,
  knob_options, overlaid, OptionError, unknown_options, canonical_options, resolve,
}

-- The first of two that is there.
abbrev pub either : Option Value → Option Value → Option Value
either (some a) b = some a
either none b = b

keys-lookup : (name : String) (d : Dict Value) → contains (keys d) name ≡ is_some (lookup name d)
unfolding contains lookup
keys-lookup name [] = refl
keys-lookup name ((k, v) ∷ d) = ground (arith, keys-lookup name d)

lookup-absent :
    (name : String) (d : Dict Value) → contains (keys d) name ≡ false → lookup name d ≡ none
lookup-absent name d h = elim (Option-cases (lookup name d)) [
  | inl absent ↦ absent
  | inr (v, found) ↦ cc (sym h ∙ keys-lookup name d ∙ ap is_some found)
]

lookup-overlaid :
    (name : String) (base overlay : Dict Value)
    → IsDistinct (keys overlay)
    → lookup name (overlaid base overlay) ≡ either (lookup name overlay) (lookup name base)
unfolding overlaid lookup
lookup-overlaid name base [] d = refl
lookup-overlaid name base ((k, v) ∷ rest) d =
    lookup-overlaid name (insert k v base) rest d.1 ∙ elim (Bool-cases (str_eq k name)) [
      | inl hit ↦
          rw (lookup-insert k name v base, hit)
            (ap (λ o. either o (some v))
              (lookup-absent name rest
                (subst (λ n. contains (keys rest) n ≡ false) ((eq_iff k name).0 hit) d.0)))
      | inr miss ↦ rw (lookup-insert k name v base, miss) refl
    ]

module _ (attribute : String → Value) (knob_values : Dict Value) where
  abbrev pub knob_value : Knob → Value
  knob_value knob = get_or knob_values knob.path knob.default

  -- Whether a knob of this option replaces what is given under the name.
  abbrev pub replaces : Knob → String → Bool
  replaces knob name = str_eq knob.option name && not (is_none (knob_value knob))

  -- What the caller gives for `debug`, or else the kernel's own attribute, ORed with the knob.
  abbrev pub debug_value : (given : String → Option Value) → Value
  debug_value given =
      or_value (elim (given "debug") [ none ↦ attribute "debug" | some v ↦ v ])
        (knob_value debug_knob)

  -- The value of an option, by its name: a knob's, or what the caller gives.
  abbrev pub chosen : (given : String → Option Value) → String → Option Value
  chosen given name =
      if replaces casts_knob name
      then some (knob_value casts_knob)
      else if replaces instrumentation_knob name
      then some (knob_value instrumentation_knob)
      else if str_eq "debug" name
      then some (debug_value given)
      else given name

  overwrite-lookup :
      (option name : String) (value : Value) (merged : Dict Value)
      → lookup name (if is_none value then merged else insert option value merged)
        ≡ (if str_eq option name && not (is_none value) then some value else lookup name merged)
  overwrite-lookup option name value merged = elim (Bool-cases (is_none value)) [
    | inl nothing ↦ rw nothing (ground arith)
    | inr something ↦ rw something (lookup-insert option name value merged ∙ ground arith)
  ]

  knob_options-lookup :
      (options : Dict Value) (name : String)
      → lookup name (knob_options attribute options knob_values)
        ≡ chosen (λ n. lookup n options) name
  unfolding knob_options apply_knobs apply_knob
  knob_options-lookup options name =
      overwrite-lookup "fpsan_homomorphic_casts" name (knob_value casts_knob) _
      ∙ ap (λ o. if replaces casts_knob name then some (knob_value casts_knob) else o)
          (overwrite-lookup "instrumentation_mode" name (knob_value instrumentation_knob) _
            ∙ ap
                (λ o.
                  if replaces instrumentation_knob name
                  then some (knob_value instrumentation_knob)
                  else o)
                (lookup-insert "debug" name (debug_value (λ n. lookup n options)) options))

  -- If no name stands twice in the overlay, each option that reaches the backend is the value of a knob
  -- that replaces it, for `debug` the OR of the caller's value and the knob's, and else the overlay's
  -- value, or the base's where the overlay has none.
  pub knob_options-overlaid :
      (base overlay : Dict Value) (name : String)
      → IsDistinct (keys overlay)
      → lookup name (knob_options attribute (overlaid base overlay) knob_values)
        ≡ chosen (λ n. either (lookup n overlay) (lookup n base)) name
  knob_options-overlaid base overlay name d =
      knob_options-lookup (overlaid base overlay) name
      ∙ ap (λ (given : String → Option Value). chosen given name)
          (λ i n. lookup-overlaid n base overlay d i)

  -- No option that is given gets lost.
  chosen-kept :
      (given : String → Option Value) (name : String)
      → is_some (given name) ≡ true
      → is_some (chosen given name) ≡ true
  chosen-kept given name h = ground (arith, h)

  overlaid-kept :
      (base overlay : Dict Value) (name : String)
      → is_some (lookup name base) || is_some (lookup name overlay) ≡ true
      → is_some (lookup name (overlaid base overlay)) ≡ true
  unfolding overlaid lookup
  overlaid-kept base [] name h = ground (arith, h)
  overlaid-kept base ((k, v) ∷ rest) name h =
      overlaid-kept (insert k v base) rest name
        (rw (lookup-insert k name v base) (ground (arith, h)))

any-unknown :
    (fields names : List String) (name : String)
    → any (λ n. not (contains fields n)) names ≡ false
    → contains names name ≡ true
    → contains fields name ≡ true
unfolding contains
any-unknown fields [] name h there = cc
any-unknown fields (n ∷ names) name h there = elim (Bool-cases (str_eq n name)) [
  | inl hit ↦ subst (λ k. contains fields k ≡ true) ((eq_iff n name).0 hit) (ground (arith, h))
  | inr miss ↦ any-unknown fields names name (ground (arith, h)) (rw miss at there)
]

module _ {P : Type 0} (parse_options : Dict Value → Result OptionError P)
    (fields : P → List String) where
  -- Every option of the base or the overlay is a field of what `resolve` returns.
  pub resolve-known :
      (attribute : String → Value) (base overlay knob_values : Dict Value) (parsed : P)
      (name : String)
      → resolve parse_options fields attribute base overlay knob_values ≡ ok parsed
      → is_some (lookup name base) || is_some (lookup name overlay) ≡ true
      → contains (fields parsed) name ≡ true
  unfolding resolve canonical_options
  resolve-known attribute base overlay knob_values parsed name e given =
      let options = knob_options attribute (overlaid base overlay) knob_values in
      bind_elim (parse_options options) _ e λ p is_p more.
        let (known, done) =
          refuse-eq-ok (any (λ n. not (contains (fields p) n)) (keys options)) unknown_options _
            more in
        subst (λ p. contains (fields p) name ≡ true) (ok-inj done)
          (any-unknown (fields p) (keys options) name known (
            keys-lookup name options
            ∙ ap is_some (knob_options-lookup attribute knob_values (overlaid base overlay) name)
            ∙ chosen-kept attribute knob_values (λ n. lookup n (overlaid base overlay)) name
                (overlaid-kept attribute knob_values base overlay name given)))
