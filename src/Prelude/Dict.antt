-- ===== src/Prelude/Dict.antt =====
-- Python's `dict` with string keys: insertion order is kept, and a key that is set again stays put.
use Prim.Native.String.{String}
use mathlib.Core.Path.{◌≡◌, refl, sym, subst, ◌∙◌}
use mathlib.Core.Option.{Option, none, some}
use mathlib.Core.List.{List, [], ◌∷◌, map}
use native.Mathlib.Omega.{arith}
use text.Mathlib.Text.{◌==◌ as str_eq}
use text.Mathlib.TextEquality.{eq_iff}
use mathlib.Core.Logic.{◌⊎◌, ◌≢◌, inl, inr}
use intj.Prelude.Lists.{All}
use intj.Prelude.Tests.{if◌then◌else◌, Bool-cases, some-inj}

abbrev pub Dict {ℓ} : Type ℓ → Type ℓ
Dict V = List (String × V)

module _ {ℓ} {V : Type ℓ} where
  unfoldable pub lookup : String → Dict V → Option V
  lookup k [] = none
  lookup k ((j, v) ∷ m) = if str_eq j k then some v else lookup k m

  unfoldable pub insert : String → V → Dict V → Dict V
  insert k v [] = (k, v) ∷ []
  insert k v ((j, w) ∷ m) = if str_eq j k then (j, v) ∷ m else (j, w) ∷ insert k v m

  -- `d.get(k, default)`
  abbrev pub get_or : Dict V → String → V → V
  get_or m k d = elim (lookup k m) [ none ↦ d | some v ↦ v ]

  abbrev pub keys : Dict V → List String
  keys m = map (λ e. e.0) m

  pub lookup-insert :
      (set asked : String) (new : V) (d : Dict V)
      → lookup asked (insert set new d) ≡ (if str_eq set asked then some new else lookup asked d)
  unfolding insert lookup
  lookup-insert set asked new [] = refl
  lookup-insert set asked new ((first, old) ∷ rest) = ground (
    arith,
    lookup-insert set asked new rest,
    eq_iff first asked,
    eq_iff first set,
    eq_iff set asked,
  )

  pub lookup-insert_self : (k : String) (v : V) (m : Dict V) → lookup k (insert k v m) ≡ some v
  lookup-insert_self k v m = ground (arith, lookup-insert k k v m, eq_iff k k)

  pub lookup-insert_ne :
      (k j : String) (v : V) (m : Dict V) → k ≢ j → lookup j (insert k v m) ≡ lookup j m
  lookup-insert_ne k j v m h = ground (arith, lookup-insert k j v m, eq_iff k j)

  -- What is found after an insertion is new, or was there before.
  pub lookup_of_insert :
      (k j : String) (v r : V) (m : Dict V)
      → lookup j (insert k v m) ≡ some r
      → (v ≡ r) ⊎ (k ≢ j) × (lookup j m ≡ some r)
  lookup_of_insert k j v r m e = elim (Bool-cases (str_eq k j)) [
    | inl hit ↦ inl (some-inj v r (sym (rw hit at (lookup-insert k j v m)) ∙ e))
    | inr miss ↦ inr ((λ p. cc ((eq_iff k j).1 p)), sym (rw miss at (lookup-insert k j v m)) ∙ e)
  ]

  -- What a dict finds is one of its values.
  pub lookup-All {κ} :
      (P : V → Type κ) (k : String) (d : Dict V) {v : V}
      → All (λ e. P e.1) d
      → lookup k d ≡ some v
      → P v
  unfolding lookup
  lookup-All P k [] h found = cc
  lookup-All P k ((j, w) ∷ rest) {v} h found = elim (Bool-cases (str_eq j k)) [
    | inl hit ↦ subst P (some-inj w v (rw hit at found)) h.0
    | inr miss ↦ lookup-All P k rest h.1 (rw miss at found)
  ]
