-- ===== src/Specialization/Calls.antt =====
-- specialization.py: how the public call numbers the parameters (`call_layout`), with the record
-- `Param` of render/key.py.
pub mod Numbering
use intj.Prelude.{
  ℕ, ◌+◌, String, Bool, true, false, ◌&&◌, Option, none, some, List, [], ◌∷◌, if◌then◌else◌,
}
use intj.Values.{Value}
use intj.Annotation.{CanonicalAnnotation, ResolvedParam}
use intj.Specialization.KeyFields.{is_public, object_capable}

pub record Param : Type 0 where
  pub name : String
  pub index : ℕ
  pub call_index : Option ℕ
  pub annotation : CanonicalAnnotation
  pub memo : Option ℕ

abbrev pub number_if : Bool → ℕ → Option ℕ
number_if true n = some n
number_if false n = none

abbrev pub next_if : Bool → ℕ → ℕ
next_if true n = n + 1
next_if false n = n

-- A public parameter with its own memo.
abbrev pub takes_objects : CanonicalAnnotation → Bool
takes_objects a = is_public a && object_capable a

-- The loop of `call_layout` with its two counters.
unfoldable pub call_layout_from : (call_index memo : ℕ) → List ResolvedParam → List Param
call_layout_from call_index memo [] = []
call_layout_from call_index memo (p ∷ rest) =
    record {
      name = p.name;
      index = p.index;
      call_index = number_if (is_public p.annotation) call_index;
      annotation = p.annotation;
      memo = number_if (takes_objects p.annotation) memo;
    }
    ∷ call_layout_from (next_if (is_public p.annotation) call_index)
        (next_if (takes_objects p.annotation) memo) rest

unfoldable pub call_layout : List ResolvedParam → List Param
unfolding call_layout_from
call_layout resolved = call_layout_from 0 0 resolved
