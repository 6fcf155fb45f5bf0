-- ===== src/Plan/Names.antt =====
-- About plan.py, `_launch_doc`: the names of the controls.
use Prim.Native.String.{count, ◌++◌ as str_append}
use Prim.Native.String.count
use Prim.Native.String.append
use intj.Prelude.{
  ℕ, zero, suc, ◌+◌, ◌≤◌, ◌<◌, ◌≡◌, refl, sym, ap, ◌∙◌, length, length-append, All-append, String,
  Bool, true, false, ◌||◌, List, [], ◌∷◌, ◌++◌, All, arith, str_eq, eq_iff, Bool-cases, inl, inr,
}
use intj.Prelude.Names.{contains, contains-append, IsDistinct, IsDistinct-snoc}
use intj.Specialization.Calls.{Param}
use intj.Plan.Doc.{
  Grid, free_name, longest, add_controls, launch_names, grid_names, occupied_names, launch_controls,
}

count-append : (s : String) → count (str_append s "_") ≡ suc (count s)
count-append String.[] = refl
count-append (String.◌∷◌ c s) =
    rw (append.cons, count.cons c (str_append s "_"), count.cons c s) (ap suc (count-append s))

count-le-longest :
    (taken : List String) (name : String) → contains taken name ≡ true → count name ≤ longest taken
unfolding contains
count-le-longest [] name h = cc
count-le-longest (x ∷ xs) name h = elim (Bool-cases (str_eq x name)) [
  | inl hit ↦ rw (← (eq_iff x name).0 hit) (omega arith)
  | inr miss ↦ let k = count-le-longest xs name (rw (miss, contains) at h) in omega arith
]

-- With fuel for every taken name that is as long, the name that is left is free.
free_name-free :
    (fuel : ℕ) (taken : List String) (name : String)
    → longest taken < count name + fuel
    → contains taken (free_name fuel taken name) ≡ false
unfolding free_name
free_name-free zero taken name h = elim (Bool-cases (contains taken name)) [
  | inl hit ↦ let k = count-le-longest taken name hit in absurd (omega arith)
  | inr miss ↦ miss
]
free_name-free (suc fuel) taken name h = elim (Bool-cases (contains taken name)) [
  | inl hit ↦
      rw hit (free_name-free fuel taken (str_append name "_") (omega (arith, count-append name)))
  | inr miss ↦ rw miss miss
]

not_either : (a b : Bool) → a || b ≡ false → (a ≡ false) × (b ≡ false)
not_either false b h = (refl, h)
not_either true b h = cc

-- The controls so far clash with nothing.
AreFree : List String → List String → Type 0
AreFree occupied controls =
    IsDistinct controls × All (λ name. contains occupied name ≡ false) controls

add_controls-AreFree :
    (occupied controls names : List String)
    → AreFree occupied controls
    → AreFree occupied (add_controls occupied controls names)
      × (length (add_controls occupied controls names) ≡ length controls + length names)
unfolding add_controls AreFree
add_controls-AreFree occupied controls [] h = (h, omega arith)
add_controls-AreFree occupied controls (name ∷ rest) (distinct, free) =
    let taken : List String = occupied ++ controls in
    let new : String = free_name (suc (longest taken)) taken name in
    let clear = not_either (contains occupied new) (contains controls new) (
      sym (contains-append occupied controls new)
      ∙ free_name-free (suc (longest taken)) taken name (omega arith)) in
    let (ok_rest, len) = add_controls-AreFree occupied (controls ++ new ∷ []) rest (
      IsDistinct-snoc controls new clear.1 distinct,
      All-append (λ n. contains occupied n ≡ false) controls (new ∷ []) free (clear.0, tt),
    ) in
    (ok_rest, omega (arith, len, length-append {0} controls (new ∷ [])))

-- The controls of a launcher's signature, as many as it needs, are distinct, and each differs from the
-- public parameters, the grid's extras and the dynamic values; so the loop that renames them ends.
pub launch_controls-IsDistinct :
    (params : List Param) (fixed_device : Bool) (grid : Grid) (dynamic : List String)
    → IsDistinct (launch_controls params fixed_device grid dynamic)
      × All
          (λ name. contains (occupied_names params grid dynamic) name ≡ false)
          (launch_controls params fixed_device grid dynamic)
      × (length (launch_controls params fixed_device grid dynamic)
          ≡ length (launch_names fixed_device ++ grid_names grid))
unfolding launch_controls AreFree
launch_controls-IsDistinct params fixed_device grid dynamic =
    let (free, len) =
      add_controls-AreFree (occupied_names params grid dynamic) []
        (launch_names fixed_device ++ grid_names grid) (tt, tt) in
    (free.0, free.1, omega (arith, len))
