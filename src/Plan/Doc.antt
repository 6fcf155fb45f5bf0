-- ===== src/Plan/Doc.antt =====
-- plan.py: `_launch_doc`, the text signature of a launcher, with `Grid`.
use Prim.Native.Char.{code}
use Prim.Native.String.{count, ◌++◌ as str_append}
use intj.Prelude.{
  ℕ, zero, suc, String, Bool, true, false, List, [], ◌∷◌, ◌++◌, map, max_of, if◌then◌else◌, ◌==◌,
}
use intj.Prelude.Names.{contains}
use intj.Annotation.{is_some}
use intj.Values.{Value}
use intj.Specialization.Calls.{Param}
use intj.Grid.Compile.{GridCode}

-- `mode` with the fields that go with it; `fn` is a callable by identity, and `hidden` the fixed values
-- of `grid_py`.
pub data Grid : Type 0 where
  object_grid : Grid
  dims_grid : (dims : ℕ) → Grid
  cpp_grid : GridCode → Grid
  py_grid : (hidden : List Value) → Grid

unfoldable pub public_names : List Param → List String
public_names [] = []
public_names (p ∷ rest) =
    if is_some p.call_index then p.name ∷ public_names rest else public_names rest

abbrev pub grid_extras : Grid → List String
grid_extras (cpp_grid code) = code.extras
grid_extras _ = []

-- `name.replace(".", "_")`
unfoldable pub without_dots : String → String
without_dots String.[] = ""
without_dots (String.◌∷◌ c s) =
    let rest = without_dots s in if code c == b'.' then str_append "_" rest else String.◌∷◌ c rest

-- `["grid_x", "grid_y", "grid_z"][:dims]`
unfoldable pub dims_names : ℕ → List String
dims_names zero = []
dims_names (suc zero) = "grid_x" ∷ []
dims_names (suc (suc zero)) = "grid_x" ∷ "grid_y" ∷ []
dims_names (suc (suc (suc n))) = "grid_x" ∷ "grid_y" ∷ "grid_z" ∷ []

unfoldable pub grid_names : Grid → List String
unfolding dims_names
grid_names object_grid = "grid" ∷ []
grid_names (dims_grid n) = dims_names n
grid_names (cpp_grid code) = []
grid_names (py_grid hidden) = []

-- `while name in occupied or name in controls: name += "_"`, on fuel.
unfoldable pub free_name : (fuel : ℕ) → (taken : List String) → String → String
free_name zero taken name = name
free_name (suc fuel) taken name =
    let next = free_name fuel taken (str_append name "_") in
    if contains taken name then next else name

abbrev pub longest : List String → ℕ
longest names = max_of (map count names)

-- The loop over the controls. A name longer than every taken one is free, so this fuel is enough.
unfoldable pub add_controls : (occupied controls : List String) → List String → List String
unfolding free_name
add_controls occupied controls [] = controls
add_controls occupied controls (name ∷ rest) =
    let taken = occupied ++ controls in
    add_controls occupied (controls ++ free_name (suc (longest taken)) taken name ∷ []) rest

-- `["stream"] if fixed_device else ["device", "stream"]`
abbrev pub launch_names : (fixed_device : Bool) → List String
launch_names true = "stream" ∷ []
launch_names false = "device" ∷ "stream" ∷ []

abbrev pub occupied_names : List Param → Grid → List String → List String
occupied_names params grid dynamic =
    public_names params ++ (grid_extras grid ++ map without_dots dynamic)

unfoldable pub launch_controls : List Param → Bool → Grid → List String → List String
unfolding public_names without_dots grid_names add_controls
launch_controls params fixed_device grid dynamic =
    add_controls (occupied_names params grid dynamic) []
      (launch_names fixed_device ++ grid_names grid)

-- `", ".join(names)`
unfoldable pub join : List String → String
join [] = ""
join (name ∷ []) = name
join (name ∷ other ∷ rest) = str_append name (str_append ", " (join (other ∷ rest)))

-- `_launch_doc`, before it is encoded.
unfoldable pub launch_doc : List Param → Bool → Grid → List String → String
unfolding launch_controls join
launch_doc params fixed_device grid dynamic = str_append "launch(" (
    str_append
      (join (
        launch_controls params fixed_device grid dynamic
        ++ (grid_extras grid ++ (map without_dots dynamic ++ public_names params))))
      ", /)\n--\n\n")
