-- ===== src/Plan/Kernel.antt =====
-- plan.py: the checks of the kernel (`_check_kernel`, `_checked_kernel`, `_check_parameter_clash` and the
-- last loop of `_annotate`) and of its globals.
use intj.Prelude.{
  ℕ, String, Bool, true, false, not, ◌&&◌, ◌||◌, Option, none, some, List, [], ◌∷◌, ◌++◌, map, any,
  filter, Result, ok, err, ◌>>=◌, ◌>>◌, refuse, str_eq, ◌==◌, if◌then◌else◌,
}
use intj.Prelude.Dict.{Dict, lookup}
use intj.Prelude.Names.{contains}
use intj.Prelude.Sort.{sort_by}
use intj.ScalarTypes.{text_lt}
use intj.Annotation.{Tag}
use intj.CompileOptions.{forbidden_options}
use intj.Plan.Options.{
  BuildError, not_a_kernel, has_hooks, reads_globals, forbidden_option, names_constexpr,
  interpreted, not_positional, cannot_canonicalize,
}

-- A value of `__members__`: its identity and that of its type, whether it is None, and whether it is `==`
-- to the global.
pub record Member : Type 0 where
  pub id : ℕ
  pub type_id : ℕ
  pub is_none : Bool
  pub equals : Bool

-- What is asked of a global that is neither a tl.constexpr nor a tuple: its type, with `__members__` where
-- that is a mapping, and its own `name` where that is a str; `__module__` and `__qualname__` where it is a
-- type itself; and what `_canonical_value` returns, `none` where that raises ValueError.
pub record GlobalObject : Type 0 where
  pub id : ℕ
  pub type_id : ℕ
  pub type_module : String
  pub type_qualname : String
  pub members : Option (Dict Member)
  pub name : Option String
  pub as_class : Option (String × String)
  pub tag : Option Tag

mutual
  pub data GlobalValue : Type 0 where
    constexpr : GlobalValue → GlobalValue
    items : GlobalValues → GlobalValue
    object : GlobalObject → GlobalValue

  pub data GlobalValues : Type 0 where
    nil : GlobalValues
    cons : GlobalValue → GlobalValues → GlobalValues

-- A canonical global: a tuple whose first element is its tag.
mutual
  pub data Canonical : Type 0 where
    constexpr : Canonical → Canonical
    items : Canonicals → Canonical
    enum : (module_name qualname name : String) → Canonical
    class : (module_name qualname : String) → Canonical
    plain : Tag → Canonical

  pub data Canonicals : Type 0 where
    nil : Canonicals
    cons : Canonical → Canonicals → Canonicals

abbrev pub plain_tag : Option Tag → Option Canonical
plain_tag none = none
plain_tag (some t) = some (Canonical.plain t)

abbrev pub wrapped : Option Canonical → Option Canonical
wrapped none = none
wrapped (some c) = some (Canonical.constexpr c)

abbrev pub gathered : Option Canonicals → Option Canonical
gathered none = none
gathered (some cs) = some (Canonical.items cs)

abbrev pub joined : Option Canonical → Option Canonicals → Option Canonicals
joined none cs = none
joined (some c) none = none
joined (some c) (some cs) = some (Canonicals.cons c cs)

-- `member is not None and type(member) is kind and (member is value or member == value)`
abbrev pub is_live_member : GlobalObject → Member → Bool
is_live_member o m = not m.is_none && (m.type_id == o.type_id) && ((m.id == o.id) || m.equals)

-- The name of an enum member, where its type still has it.
unfoldable pub member_name : GlobalObject → Option String
unfolding lookup
member_name o = elim o.members [
  | none ↦ none
  | some members ↦ elim o.name [
    | none ↦ none
    | some name ↦ elim (lookup name members) [
      | none ↦ none
      | some m ↦ if is_live_member o m then some name else none
    ]
  ]
]

unfoldable pub canonical_object : GlobalObject → Option Canonical
unfolding member_name
canonical_object o = elim (member_name o) [
  | some name ↦ some (Canonical.enum o.type_module o.type_qualname name)
  | none ↦ elim o.as_class [ some c ↦ some (Canonical.class c.0 c.1) | none ↦ plain_tag o.tag ]
]

-- `_canonical_global`; `none` is its ValueError.
unfoldable mutual
  unfolding canonical_object

  pub canonical_global : GlobalValue → Option Canonical
  canonical_global (GlobalValue.constexpr v) = wrapped (canonical_global v)
  canonical_global (GlobalValue.items vs) = gathered (canonical_globals vs)
  canonical_global (GlobalValue.object o) = canonical_object o

  pub canonical_globals : GlobalValues → Option Canonicals
  canonical_globals GlobalValues.nil = some Canonicals.nil
  canonical_globals (GlobalValues.cons v vs) = joined (canonical_global v) (canonical_globals vs)

-- `_class_globals`: the classes in a canonical global, in order.
unfoldable mutual
  pub class_globals : Canonical → List (String × String)
  class_globals (Canonical.constexpr c) = class_globals c
  class_globals (Canonical.items cs) = class_globals_in cs
  class_globals (Canonical.enum m q n) = []
  class_globals (Canonical.class m q) = (m, q) ∷ []
  class_globals (Canonical.plain t) = []

  pub class_globals_in : Canonicals → List (String × String)
  class_globals_in Canonicals.nil = []
  class_globals_in (Canonicals.cons c cs) = class_globals c ++ class_globals_in cs

-- An entry of `used_global_vals`: its name, the name of its scope, and the value.
pub record UsedGlobal : Type 0 where
  pub name : String
  pub scope : String
  pub value : GlobalValue

abbrev pub GlobalEntry : Type 0
GlobalEntry = String × (String × Canonical)

unfoldable pub canonical_entries : List UsedGlobal → Result BuildError (List GlobalEntry)
unfolding canonical_global
canonical_entries [] = ok []
canonical_entries (g ∷ rest) = elim (canonical_global g.value) [
  | none ↦ err (cannot_canonicalize g.name)
  | some c ↦ canonical_entries rest >>= λ others. ok ((g.name, (g.scope, c)) ∷ others)
]

-- The order of `sorted(values, key=lambda item: (item[0], item[1]))`.
abbrev pub entry_le : GlobalEntry → GlobalEntry → Bool
entry_le (a, (s, c)) (b, (t, d)) = text_lt a b || (str_eq a b && not (text_lt t s))

-- `_global_values`
unfoldable pub global_values : List UsedGlobal → Result BuildError (List GlobalEntry)
unfolding canonical_entries sort_by
global_values used = canonical_entries used >>= λ values. ok (sort_by entry_le values)

-- A parameter of the kernel: its name, whether it is a constexpr, and whether it is positional.
pub record JitParameter : Type 0 where
  pub name : String
  pub is_constexpr : Bool
  pub is_positional : Bool

-- What `jit_func` is: a kernel, one under Triton's interpreter, or anything else; or a layer of autotune
-- or heuristics around such.
pub data JitFunction : Type 0 where
  kernel : (has_pre_run_hooks : Bool) → List UsedGlobal → List JitParameter → JitFunction
  interpreted_function : JitFunction
  other_object : JitFunction
  layer : JitFunction → JitFunction

-- `while is_chain(kernel): kernel = kernel.fn`
unfoldable pub under_chain : JitFunction → JitFunction
under_chain (layer fn) = under_chain fn
under_chain (kernel hooks globals params) = kernel hooks globals params
under_chain interpreted_function = interpreted_function
under_chain other_object = other_object

abbrev pub refuse_interpreted : JitFunction → Result BuildError JitFunction
refuse_interpreted interpreted_function = err interpreted
refuse_interpreted fn = ok fn

-- `_checked_kernel`
unfoldable pub checked_kernel : JitFunction → Result BuildError JitFunction
unfolding under_chain
checked_kernel jit_func = refuse_interpreted (under_chain jit_func)

abbrev pub reads_any : List UsedGlobal → Bool
reads_any [] = false
reads_any (g ∷ rest) = true

-- The loop over `FORBIDDEN_OPTIONS`.
unfoldable pub refuse_options : List String → List String → Result BuildError (Unit {0})
refuse_options [] options = ok tt
refuse_options (key ∷ rest) options =
    refuse (contains options key) (forbidden_option key) >> refuse_options rest options

-- `_check_kernel`
unfoldable pub check_kernel :
    JitFunction
    → (options : List String) → (assume_constant_globals : Bool)
    → Result BuildError (List UsedGlobal × List JitParameter)
unfolding refuse_options
check_kernel (kernel hooks globals params) options assume_constant_globals = do
  refuse hooks has_hooks
  refuse (reads_any globals && not assume_constant_globals) reads_globals
  refuse_options forbidden_options options
  ok (globals, params)
check_kernel interpreted_function options assume_constant_globals = err not_a_kernel
check_kernel other_object options assume_constant_globals = err not_a_kernel
check_kernel (layer fn) options assume_constant_globals = err not_a_kernel

-- `_check_parameter_clash`
unfoldable pub check_parameter_clash :
    (options : List String) → List JitParameter → Result BuildError (Unit {0})
check_parameter_clash options params =
    let constexprs = map (λ p. p.name) (filter (λ p. p.is_constexpr) params) in
    refuse (any (contains constexprs) options) names_constexpr

-- The last loop of `_annotate`.
unfoldable pub check_positional : List JitParameter → Result BuildError (Unit {0})
check_positional [] = ok tt
check_positional (p ∷ rest) = refuse (not p.is_positional) not_positional >> check_positional rest
