-- ===== src/Lib.antt =====
-- intj makes launchers for Triton kernels. A launcher keys each call on the facts that Triton would
-- specialize the kernel for, looks the key up in a table of compiled kernels, and launches what it
-- finds. This library models the parts of the Python package that decide what the key is made of, and
-- the analysis of autotune and heuristics layers, the lowering of grid functions, and the checks of a
-- launcher's options that lead to them.
--
-- The parts, with the files of intj/ that they model:
--
-- - Prelude: the helpers that the parts share. Python's `dict` is an association list in insertion
--   order, `sorted` is a stable insertion sort, and an exception is a value of the part's error type.
-- - Values: the Python values that a launcher is given, with `float` as an exact multiple of 2^-1074.
-- - ScalarTypes (scalar_types.py): the table of type names, `fits`, `key_bytes` and `narrowness`.
-- - Annotation (annotation.py): facts and policies (Facts), type names (Types), and `_merge_annotations`,
--   which merges the two annotations of each parameter (Merge, Resolve), bakes values (Bake) and refuses
--   what is impossible (Canonical).
-- - Specialization (specialization.py, render/key.py): `_cache_key_fields` (KeyFields),
--   `_layout_fields` (Placing), `call_layout` (Calls) and `key_layout` (KeyLayout).
-- - Heuristics (heuristic.py): `parse_heuristic` over the located expression.
-- - CompileOptions (compile_options.py): how options and knobs merge, and what is refused.
-- - Tuning (tuning.py): `analyze`, in Tuning/Marking `plan_tuning`, and in Tuning/Render `tuning_render`.
-- - Grid (grid.py, runtime/intj_runtime.h): `compile_grid` (Compile) with `emit` (Emit), from what
--   `inspect` and `ast` say of a grid function (Syntax) to statements of a small C (Code). Meaning and Run
--   give what Python and C do in a call, so the two can be compared.
-- - Lowering (heuristic.py, runtime/intj_runtime.h): `lower` (Whole) with `emit` (Emit), to statements of
--   the same kind with tests and tensors (Code). Meaning says what Python gives, and Supplies where the
--   C code finds the inputs.
-- - Plan (plan.py, options.py, and the end of tuning.py's `tuning_render` in Sources): `_check_values`
--   (Options), `_check_kernel` and the globals (Kernel), `_check_dynamic` (Dynamic), `_bind` (Bind),
--   `_launch_doc` (Doc) and `build_plan` (Build), which calls the other parts in the order of the code.
--
-- They interact as the code does: `_merge_annotations` gives the parameters with their annotations,
-- `analyze` parses heuristics, its plan marks the parameters that are tuned or keyed exactly,
-- `call_layout` numbers what is left of the call, and `key_layout` places the key fields of the numbered
-- parameters. `tuning_render` takes the plan of `analyze`, and `compile_grid`
-- the numbered parameters. `lower` takes what `tuning_render` numbers. `build_plan` runs all of these.
--
-- State. `analyze` changes five local variables in nested loops: they are the fields of `Analysis`,
-- and each loop is a recursion over its list that returns the next state or an error. The other
-- functions have counters only, which are arguments.
--
-- Bounds and fuel. Offsets and levels are unbounded naturals, as Python's are. The walk over an
-- expression has its number of nodes as fuel: each step takes one node off the queue.
-- The exponent of a four-byte float is searched in 1,174 rounds, which the range of a double needs.
-- The search for a free name of a control has one round more than the longest taken name has letters.
-- Counting the bits of a number has the number as fuel, and halves it in each step.
--
-- Not modelled: the text of error messages; the C that render/ prints, and the layout of the C text; what
-- `inspect`, `linecache` and `compile` say of a function, whose result is part of the modelled
-- callable; Triton's own objects beyond the attributes that are read; locks and callbacks of the
-- launcher; and the C runtime beyond the arithmetic and the argument checks of grids.
pub mod Prelude
pub mod Values
pub mod ScalarTypes
pub mod Annotation
pub mod Specialization
pub mod Heuristics
pub mod Tuning
pub mod CompileOptions
pub mod Grid
pub mod Lowering
pub mod Plan
