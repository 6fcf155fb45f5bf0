-- ===== src/Lowering/Supplies.antt =====
-- About heuristic.py, `Source`: where the emitted code finds what Python's function is called with.
use intj.Prelude.{
  ◌≡◌, refl, subst, String, true, Option, none, some, [], ◌∷◌, All, ok, ok-inj, some-inj, eq_iff,
  str_eq, Bool-cases, inl, inr,
}
use intj.Prelude.Int.{ℤ, fits_int64}
use intj.Prelude.Dict.{Dict, lookup}
use intj.Values.{Value}
use intj.Grid.Run.{get_elem?}
use intj.Grid.Meaning.{Scalar, int_value, bool_value, as_int}
use intj.Lowering.Code.{Call}
use intj.Lowering.Emit.{Source, arg, fixed, dep, comp, Emitter, source_of}
use intj.Lowering.Meaning.{given_value}
use intj.Lowering.Matches.{flag_value}

abbrev pub value_of : Scalar → Value
value_of (int_value z) = Value.int z
value_of (bool_value b) = Value.bool b

-- An int64 can hold a baked value that is an int.
abbrev pub IsLiteral : Value → Type 0
IsLiteral (Value.int z) = fits_int64 z ≡ true
IsLiteral _ = Unit

-- One pair (value, 1 if it was a bool).
abbrev pub Holds : Option (ℤ × ℤ) → Value → Type 0
Holds held v =
    (x : Scalar) × (v ≡ value_of x)
    × (fits_int64 (as_int x) ≡ true)
    × (held ≡ some (as_int x, flag_value x))

-- The value `v` of an input is what its source has.
abbrev pub Supplied : Call → Value → Source → Type 0
Supplied call v (arg i) = get_elem? call.args i ≡ some v
Supplied call v (fixed w) = (w ≡ v) × IsLiteral w
Supplied call v (dep i) = Holds (get_elem? call.dep i) v
Supplied call v (comp i) = Holds (get_elem? call.comp i) v

abbrev pub Supplies : Call → Dict Value → Dict Source → Type 0
Supplies call env sources =
    All (λ e. (v : Value) × (lookup e.0 env ≡ some v) × Supplied call v e.1) sources

Supplies-lookup :
    (call : Call) (env : Dict Value) (key : String) (sources : Dict Source) {s : Source}
    → Supplies call env sources
    → lookup key sources ≡ some s
    → (v : Value) × (lookup key env ≡ some v) × Supplied call v s
unfolding lookup
Supplies-lookup call env key [] a h = cc
Supplies-lookup call env key ((j, s') ∷ rest) {s} a h = elim (Bool-cases (str_eq j key)) [
  | inl hit ↦
      let (v, e, q) = a.0 in
      (
        v,
        subst (λ n. lookup n env ≡ some v) ((eq_iff j key).0 hit) e,
        subst (Supplied call v) (some-inj _ _ (rw hit at h)) q,
      )
  | inr miss ↦ Supplies-lookup call env key rest {s = s} a.1 (rw miss at h)
]

-- An input has a value, which its source holds.
pub source_of-Supplied :
    (call : Call) (env : Dict Value) (em : Emitter) (key : String) {s : Source}
    → Supplies call env em.sources
    → source_of em key ≡ ok s
    → (v : Value) × (given_value env key ≡ ok v) × Supplied call v s
unfolding source_of
source_of-Supplied call env em key {s} a h = by_lookup (lookup key em.sources) refl
  where
    by_lookup :
        (m : Option Source)
        → lookup key em.sources ≡ m
        → (v : Value) × (given_value env key ≡ ok v) × Supplied call v s
    by_lookup none e = cc (rw (e, source_of) at h)
    by_lookup (some s') e =
        let (v, f, q) = Supplies-lookup call env key em.sources a e in
        (v, rw (f, given_value) refl, subst (Supplied call v) (ok-inj (rw (e, source_of) at h)) q)
