-- ===== src/Annotation/Fixed.antt =====
-- About annotation.py, the end of `_merge_annotations`: the facts of an argument, and its baked or
-- bound value.
use intj.Prelude.{
  String, ◌≡◌, refl, sym, subst, Bool, true, false, not, ◌&&◌, ◌||◌, Option, none, some, List, [],
  ◌∷◌, any, filter, All, arith, ok, refuse, refuse-eq-ok, bind_elim, after-eq-ok, ok-inj,
}
use intj.Values.{Value}
use intj.ScalarTypes.{argument, fits}
use intj.Annotation.{
  FactName, equal_to_one, aligned_16, pointer_range_32, Mode, auto, never, assume, is_auto,
  is_assume, BindValue, baked_pointer, does_not_fit, violates_fact, dead_ptr_range,
  impossible_branch, auto_with_bound, is_some, applicable,
}
use intj.Annotation.Types.{inferred_scalar_type}
use intj.Annotation.Merge.{SetModes, Merged}
use intj.Annotation.Bake.{is_pointer_type, baked_type, bake, bake_argument}
use intj.Annotation.Canonical.{
  set_mode_of, assumed, branches_of, check_dead, is_one, is_aligned, violates, check_baked,
  check_bound, check_one_type, is_impossible, is_dead_range, baked_one, baked_aligned, baked_modes,
  leaves_auto, check_value_facts, final_modes, check_argument,
}

-- No value is 1 and a multiple of 16.
one-aligned : (v : Value) → is_one v ≡ true → is_aligned v ≡ false
one-aligned (Value.int v) h = ground (arith, h)
one-aligned Value.null h = cc
one-aligned (Value.bool b) h = cc
one-aligned (Value.float f) h = cc
one-aligned (Value.str s) h = cc
one-aligned (Value.dtype n) h = cc
one-aligned (Value.jit m q k) h = cc
one-aligned (Value.object n) h = cc

check_baked-All :
    (ty : Option String) (v : Value) (fields : List FactName) {u : Unit {0}}
    → check_baked ty v fields ≡ ok u
    → All (λ field. applicable ty field && violates v field ≡ false) fields
unfolding check_baked
check_baked-All ty v [] e = tt
check_baked-All ty v (field ∷ rest) e =
    let (passed, more) =
      refuse-eq-ok (applicable ty field && violates v field) (violates_fact field) _ e in
    (passed, check_baked-All ty v rest more)

-- What holds of the assumed facts holds of each fact that is assumed.
filter-kept :
    (P : FactName → Type 0) (p : FactName → Bool) (field : FactName) (rest : List FactName)
    → All P (filter p (field ∷ rest))
    → (p field ≡ true → P field) × All P (filter p rest)
filter-kept P p field rest h = split (p field) h
  where
    split :
        (kept : Bool)
        → All P (elim kept [ true ↦ field ∷ filter p rest | false ↦ filter p rest ])
        → (kept ≡ true → P field) × All P (filter p rest)
    split true h = ((λ e. h.0), h.1)
    split false h = ((λ e. cc), h)

-- A fact that is assumed of a baked value holds of it.
assumed-holds :
    (ty : Option String) (v : Value) (modes : SetModes) {u : Unit {0}}
    → check_baked ty v (assumed modes) ≡ ok u
    → is_assume modes.aligned_16 ≡ true
    → applicable ty aligned_16 && violates v aligned_16 ≡ false
assumed-holds ty v modes e is_assumed =
    let Holds : FactName → Type 0 = λ field. applicable ty field && violates v field ≡ false in
    let is_on : FactName → Bool = λ field. is_assume (set_mode_of modes field) in
    let (one, rest) =
      filter-kept Holds is_on equal_to_one (aligned_16 ∷ pointer_range_32 ∷ [])
        (check_baked-All ty v (assumed modes) e) in
    (filter-kept Holds is_on aligned_16 (pointer_range_32 ∷ []) rest).0 is_assumed

is_assume-baked_one :
    (ty : Option String) (v : Value) (mode : Mode)
    → is_assume (baked_one ty v mode)
      ≡ is_assume mode || (is_auto mode && (applicable ty equal_to_one && is_one v))
unfolding baked_one
is_assume-baked_one ty v auto = ground arith
is_assume-baked_one ty v never = refl
is_assume-baked_one ty v assume = refl

is_assume-baked_aligned :
    (ty : Option String) (v : Value) (one mode : Mode)
    → is_assume (baked_aligned ty v one mode)
      ≡ is_assume mode
        || (is_auto mode && (applicable ty aligned_16 && (not (is_assume one) && is_aligned v)))
unfolding baked_aligned
is_assume-baked_aligned ty v one auto = ground arith
is_assume-baked_aligned ty v one never = refl
is_assume-baked_aligned ty v one assume = refl

baked_modes-possible :
    (ty : Option String) (v : Value) (modes : SetModes) {u : Unit {0}}
    → check_baked ty v (assumed modes) ≡ ok u
    → is_impossible modes ty ≡ false
    → is_impossible (baked_modes ty v modes) ty ≡ false
baked_modes-possible ty v modes e possible = ground (
  arith,
  possible,
  assumed-holds ty v modes e,
  one-aligned v,
  is_assume-baked_one ty v modes.equal_to_one,
  is_assume-baked_aligned ty v (baked_one ty v modes.equal_to_one) modes.aligned_16,
)

is_auto-baked_one :
    (ty : Option String) (v : Value) (mode : Mode)
    → is_auto (baked_one ty v mode) && applicable ty equal_to_one ≡ false
unfolding baked_one
is_auto-baked_one ty v auto = ground arith
is_auto-baked_one ty v never = refl
is_auto-baked_one ty v assume = refl

is_auto-baked_aligned :
    (ty : Option String) (v : Value) (one mode : Mode)
    → is_auto (baked_aligned ty v one mode) && applicable ty aligned_16 ≡ false
unfolding baked_aligned
is_auto-baked_aligned ty v one auto = ground arith
is_auto-baked_aligned ty v one never = refl
is_auto-baked_aligned ty v one assume = refl

applicable-range :
    (ty : Option String) → is_pointer_type ty ≡ false → applicable ty pointer_range_32 ≡ false
unfolding applicable
applicable-range none h = refl
applicable-range (some name) h = h

-- A baked value leaves no fact of its type open.
baked_modes-settled :
    (ty : Option String) (v : Value) (modes : SetModes)
    → is_pointer_type ty ≡ false
    → leaves_auto (baked_modes ty v modes) (ty ∷ []) ≡ false
baked_modes-settled ty v modes h = ground (
  arith,
  is_auto-baked_one ty v modes.equal_to_one,
  is_auto-baked_aligned ty v (baked_one ty v modes.equal_to_one) modes.aligned_16,
  applicable-range ty h,
)

-- A baked value fits the one type that there is.
abbrev pub fits_one : Option Value → Option (List (Option String)) → Bool
fits_one none types = true
fits_one (some v) (some (ty ∷ [])) = fits v ty argument
fits_one (some v) types = false

-- What the checks of an argument leave.
pub record IsCoherent (baked : Option Value) (bind_value : Option BindValue)
    (types : Option (List (Option String))) (modes : SetModes) : Type 0 where
  pub possible : any (is_impossible modes) (branches_of types) ≡ false
  pub settled :
      (is_some baked || is_some bind_value) && leaves_auto modes (branches_of types) ≡ false
  pub fitting : fits_one baked types ≡ true

-- The type of a baked argument.
bake_argument-eq-ok :
    (types : Option (List (Option String))) (v : Value) {narrowed : Option (List (Option String))}
    → bake_argument types v ≡ ok narrowed
    → (ty : Option String) × (narrowed ≡ some (ty ∷ []))
      × (fits v ty argument ≡ true)
      × (is_pointer_type ty ≡ false)
unfolding bake_argument
bake_argument-eq-ok types v e = bind_elim (inferred_scalar_type v) _ e λ inferred is_inferred more.
    bind_elim (baked_type types inferred) _ more λ ty is_ty more.
      let (scalar, more) = refuse-eq-ok (is_pointer_type ty) baked_pointer _ more in
      let (fit, done) = refuse-eq-ok (not (fits v ty argument)) does_not_fit _ more in
      (ty, sym (ok-inj done), ground (arith, fit), scalar)

pub check_argument-eq-ok :
    (m : Merged) (types : Option (List (Option String))) {modes : SetModes}
    → check_argument m types ≡ ok modes
    → (any (is_impossible m.modes) (branches_of types) ≡ false)
      × (check_value_facts types m.baked m.modes ≡ ok tt)
      × (final_modes types m.baked m.bind_value m.modes ≡ ok modes)
unfolding check_argument
check_argument-eq-ok m types e =
    let more = after-eq-ok (check_dead (branches_of types) (assumed m.modes)) _ e in
    let more = after-eq-ok (refuse (is_dead_range m (branches_of types)) dead_ptr_range) _ more in
    let (possible, more) =
      refuse-eq-ok (any (is_impossible m.modes) (branches_of types)) impossible_branch _ more in
    bind_elim (check_value_facts types m.baked m.modes) _ more λ u checked more.
      let more = after-eq-ok (check_bound m.raw_type types m.bind_value) _ more in
      (possible, checked, after-eq-ok (check_one_type types m.baked m.bind_value) _ more)

pub coherent :
    (baked : Option Value) (bind_value : Option BindValue)
    (types narrowed : Option (List (Option String))) (modes final : SetModes)
    → bake argument types baked ≡ ok narrowed
    → any (is_impossible modes) (branches_of narrowed) ≡ false
    → check_value_facts narrowed baked modes ≡ ok tt
    → final_modes narrowed baked bind_value modes ≡ ok final
    → IsCoherent baked bind_value narrowed final
unfolding final_modes bake
coherent none none types narrowed modes final b possible checked e =
    subst (IsCoherent none none narrowed) (ok-inj e)
      (record { possible = possible; settled = refl; fitting = refl })
coherent none (some bound) types narrowed modes final b possible checked e =
    let (open_fact, done) =
      refuse-eq-ok (leaves_auto modes (branches_of narrowed)) auto_with_bound _ e in
    subst (IsCoherent none (some bound) narrowed) (ok-inj done)
      (record { possible = possible; settled = open_fact; fitting = refl })
coherent (some v) bind_value types narrowed modes final b possible checked e =
    let (ty, is_ty, fit, scalar) = bake_argument-eq-ok types v b in
    let possible_ty : is_impossible modes ty || false ≡ false =
      subst (λ ts. any (is_impossible modes) (branches_of ts) ≡ false) is_ty possible in
    let checked_ty : check_baked ty v (assumed modes) ≡ ok tt =
      subst (λ ts. check_value_facts ts (some v) modes ≡ ok tt) is_ty checked in
    let final_ty : baked_modes ty v modes ≡ final =
      ok-inj (subst (λ ts. final_modes ts (some v) bind_value modes ≡ ok final) is_ty e) in
    subst (λ ts. IsCoherent (some v) bind_value ts final) (sym is_ty)
      (subst (IsCoherent (some v) bind_value (some (ty ∷ []))) final_ty (record {
        possible =
            ground
              (arith, baked_modes-possible ty v modes checked_ty (ground (arith, possible_ty)));
        settled = baked_modes-settled ty v modes scalar;
        fitting = fit;
      }))
