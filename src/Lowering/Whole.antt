-- ===== src/Lowering/Whole.antt =====
-- heuristic.py: `lower`, the statements of one heuristic in the function of its level.
use intj.Prelude.{
  ℕ, zero, suc, ◌+◌, ◌≡◌, refl, subst, Bool, List, [], ◌∷◌, ◌++◌, Result, ok, err, ◌>>=◌, bind_elim,
  ok-inj, ◌==◌, if◌then◌else◌,
}
use intj.Prelude.Int.{ℤ}
use intj.Prelude.Dict.{Dict}
use intj.Values.{Value}
use intj.Grid.Code.{RunError, undefined, Store, in_int64}
use intj.Grid.Meaning.{Scalar, as_int}
use intj.Grid.Stores.{Below}
use intj.Lowering.Code.{Call, operand_of, perform, arith_value, grid_next_pow2}
use intj.Lowering.Emit.{Term, Emitter, Source, LowerError, LoweredTerm, emit}
use intj.Lowering.Meaning.{evaluate}
use intj.Lowering.Matches.{Matches, flag_value}
use intj.Lowering.Supplies.{Supplies}
use intj.Lowering.Attributes.{HasKinds}
use intj.Lowering.Longs.{HasLongs}
use intj.Lowering.Correct.{emit-Lowered}

-- A heuristic's expression, and what the names that it may call resolve to for its function.
pub record Lowerable : Type 0 where
  pub expr : Term
  pub min_ok : Bool
  pub max_ok : Bool
  pub triton_ok : Bool

-- The statements of a heuristic, and the slot of `comp` that gets its value.
pub record LoweredHeuristic : Type 0 where
  pub slot : ℕ
  pub result : LoweredTerm

abbrev pub emitter_of : Dict Source → Lowerable → Emitter
emitter_of sources h = record {
  sources = sources;
  min_ok = h.min_ok;
  max_ok = h.max_ok;
  triton_ok = h.triton_ok;
}

abbrev lowered_at : ℕ → LoweredTerm → LoweredHeuristic
lowered_at slot r = record { slot = slot; result = r }

-- One round of the loop over `computed`.
unfoldable pub lower_heuristic :
    Dict Source → Lowerable → (slot serial : ℕ) → Result LowerError LoweredHeuristic
unfolding emit
lower_heuristic sources h slot serial =
    emit (emitter_of sources h) h.expr serial >>= λ r. ok (lowered_at slot r)

-- The loop over `computed` for one level; the slot is the position, and the counter goes on.
unfoldable pub lower_level :
    Dict Source
    → (level slot serial : ℕ) → List (Lowerable × ℕ)
    → Result LowerError (List LoweredHeuristic)
unfolding lower_heuristic
lower_level sources level slot serial [] = ok []
lower_level sources level slot serial ((h, found_at) ∷ computed) =
    let others = lower_level sources level (slot + 1) serial computed in
    let own = lower_heuristic sources h slot serial >>= λ q.
    lower_level sources level (slot + 1) q.result.serial computed >>= λ rest. ok (q ∷ rest) in
    if found_at == level then own else others

-- `lower`: the counter starts again for each level.
unfoldable pub lower_from :
    Dict Source
    → List (Lowerable × ℕ)
    → (level levels : ℕ) → Result LowerError (List (List LoweredHeuristic))
unfolding lower_level
lower_from sources computed level zero = ok []
lower_from sources computed level (suc levels) = do
  own ← lower_level sources level 0 1 computed
  rest ← lower_from sources computed (level + 1) levels
  ok (own ∷ rest)

abbrev pub lower :
    List (Lowerable × ℕ) → Dict Source → ℕ → Result LowerError (List (List LoweredHeuristic))
lower computed sources levels = lower_from sources computed 0 levels

-- `comp[2 * slot] = ...; comp[2 * slot + 1] = ...;`
unfoldable pub put_pair : ℕ → ℤ × ℤ → List (ℤ × ℤ) → Result RunError (List (ℤ × ℤ))
put_pair slot p [] = err undefined
put_pair zero p (q ∷ comp) = ok (p ∷ comp)
put_pair (suc slot) p (q ∷ comp) = put_pair slot p comp >>= λ rest. ok (q ∷ rest)

abbrev written : List (ℤ × ℤ) → Store → List (ℤ × ℤ) × Store
written comp t = (comp, t)

-- The statements of one heuristic: `comp` and the variables afterwards.
unfoldable pub run_heuristic :
    Call → LoweredHeuristic → Store → Result RunError (List (ℤ × ℤ) × Store)
unfolding perform operand_of put_pair
run_heuristic call q s = do
  t ← perform call q.result.code s
  value ← operand_of call q.result.value t
  is_bool ← operand_of call q.result.flag t
  comp ← put_pair q.slot (value, is_bool) call.comp
  ok (written comp t)

-- Where `lower` lowers a heuristic, and each input's source holds its value, a baked int within int64,
-- the emitted statements put into the heuristic's slot of `comp` what Python's evaluation with the int64
-- arithmetic gives, and whether that is a bool, or stop with the same error; in any function whose
-- variables so far are numbered below the counter, and for methods of tensors of which `is_contiguous`
-- gives a bool and each other one an int. The literal indices of those methods are within int64.
pub lower_heuristic-refines :
    (call : Call) (env : Dict Value) (sources : Dict Source) (h : Lowerable) (slot serial : ℕ)
    (s : Store) (q : LoweredHeuristic)
    → HasKinds call
    → HasLongs h.expr
    → Supplies call env sources
    → Below serial s
    → lower_heuristic sources h slot serial ≡ ok q
    → (run_heuristic call q s >>= λ p. ok p.0) ≡ (
        evaluate call in_int64 arith_value grid_next_pow2 env h.expr >>= λ v.
        put_pair slot (as_int v, flag_value v) call.comp)
unfolding lower_heuristic run_heuristic
lower_heuristic-refines call env sources h slot serial s q kinds longs supplies b e =
    bind_elim (emit (emitter_of sources h) h.expr serial) _ e λ r hr last.
      subst
        (λ (p : LoweredHeuristic). (run_heuristic call p s >>= λ u. ok u.0) ≡ (
          evaluate call in_int64 arith_value grid_next_pow2 env h.expr >>= λ v.
          put_pair slot (as_int v, flag_value v) call.comp))
        (ok-inj last)
        (by_outcome r (evaluate call in_int64 arith_value grid_next_pow2 env h.expr)
          (perform call r.code s)
          (emit-Lowered call env (emitter_of sources h) kinds supplies h.expr longs serial s r b
            hr))
  where
    by_put :
        (m : Result RunError (List (ℤ × ℤ))) (t : Store)
        → ((m >>= λ comp. ok (written comp t)) >>= λ u. ok u.0) ≡ m
    by_put (ok comp) t = refl
    by_put (err x) t = refl

    by_outcome :
        (r : LoweredTerm) (m : Result RunError Scalar) (out : Result RunError Store)
        → Matches call serial s r m out
        → ((out >>= λ t. operand_of call r.value t >>= λ value.
              operand_of call r.flag t >>= λ is_bool.
              put_pair slot (value, is_bool) call.comp >>= λ comp. ok (written comp t))
            >>= λ u. ok u.0)
          ≡ (m >>= λ v. put_pair slot (as_int v, flag_value v) call.comp)
    by_outcome r (ok v) out (extra, o, g, l, value, flag) =
        rw (o, value s, flag s)
          (by_put (put_pair slot (as_int v, flag_value v) call.comp) (extra ++ s))
    by_outcome r (err x) out o = rw o refl
