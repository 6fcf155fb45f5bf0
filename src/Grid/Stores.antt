-- ===== src/Grid/Stores.antt =====
-- About the C variables of a lowered grid function: reading, writing and scopes.
use intj.Prelude.{
  ℕ, ◌+◌, ◌-◌, ◌≤◌, ◌<◌, ◌≡◌, refl, ◌∙◌, false, Option, none, some, [], ◌∷◌, ◌++◌, length,
  length-append, All, any, Result, ok, err, ◌>>=◌, arith, ◌==◌, if◌then◌else◌,
}
use intj.Prelude.Int.{ℤ, pos, eqb_ℤ, ltb_ℤ}
use intj.Grid.Code.{
  Code, end, declare, define, checked, select_min, set, branch, ◌then◌, Store, read, write, enter,
  drop, leave, execute,
}

-- Every declared variable is below the counter, or from it on.
abbrev pub Below : ℕ → Store → Type 0
Below k s = All (λ e. e.0 < k) s

abbrev pub From : ℕ → Store → Type 0
From k s = All (λ e. k ≤ e.0) s

pub From-weaken : (j k : ℕ) (s : Store) → j ≤ k → From k s → From j s
From-weaken j k [] h f = tt
From-weaken j k (e ∷ s) h f = (omega arith, From-weaken j k s h f.1)

pub Below-weaken : (j k : ℕ) (s : Store) → j ≤ k → Below j s → Below k s
Below-weaken j k [] h f = tt
Below-weaken j k (e ∷ s) h f = (omega arith, Below-weaken j k s h f.1)

not_declared : (k v : ℕ) (s : Store) → Below k s → k ≤ v → any (λ e. e.0 == v) s ≡ false
not_declared k v [] b h = refl
not_declared k v (e ∷ s) b h = ground (arith, not_declared k v s b.1 h)

-- A variable from the counter on can be declared.
pub enter-Below :
    (k : ℕ) (cell : Option ℤ) (s : Store) → Below k s → enter k cell s ≡ ok ((k, cell) ∷ s)
unfolding enter
enter-Below k cell s b = rw (not_declared k k s b (omega arith))

pub read_self : (v : ℕ) (z : ℤ) (s : Store) → read v ((v, some z) ∷ s) ≡ ok z
unfolding read
read_self v z s = ground arith

-- A variable that can be read is declared.
pub read-lt : (k v : ℕ) (s : Store) {z : ℤ} → Below k s → read v s ≡ ok z → v < k
unfolding read
read-lt k v [] b h = cc
read-lt k v ((w, cell) ∷ s) {z} b h = ground (arith, read-lt k v s {z = z} b.1)

-- Variables declared later hide nothing.
pub read-append :
    (k v : ℕ) (extra s : Store) → From k extra → v < k → read v (extra ++ s) ≡ read v s
unfolding read
read-append k v [] s f h = refl
read-append k v ((w, cell) ∷ extra) s f h = ground (arith, read-append k v extra s f.1 h)

pub read-append_ok :
    (k v : ℕ) (extra s : Store) {z : ℤ}
    → Below k s
    → From k extra
    → read v s ≡ ok z
    → read v (extra ++ s) ≡ ok z
read-append_ok k v extra s b f h = read-append k v extra s f (read-lt k v s b h) ∙ h

pub write_self :
    (v : ℕ) (z : ℤ) (cell : Option ℤ) (s : Store) → write v z ((v, cell) ∷ s) ≡ ok ((v, some z) ∷ s)
unfolding write
write_self v z cell s = ground arith

-- A write to an outer variable passes over those of the block.
pub write-append :
    (v : ℕ) (z : ℤ) (cell : Option ℤ) (extra s : Store)
    → From (v + 1) extra
    → write v z (extra ++ (v, cell) ∷ s) ≡ ok (extra ++ (v, some z) ∷ s)
unfolding write
write-append v z cell [] s f = write_self v z cell s
write-append v z cell ((w, c) ∷ extra) s f = ground (arith, write-append v z cell extra s f.1)

drop-append : (extra s : Store) → drop (length extra) (extra ++ s) ≡ s
drop-append [] s = refl
drop-append (e ∷ extra) s = drop-append extra s

-- A block's end leaves what was there before it.
pub leave-append :
    (before extra s : Store) → length before ≡ length s → leave before (extra ++ s) ≡ s
unfolding leave
leave-append before extra s h =
    let e : length (extra ++ s) - length before ≡ length extra =
      omega (arith, length-append {0} extra s) in
    rw e (drop-append extra s)

pub bind_assoc {ℓ} :
    {A B C : Type ℓ} {E : Type 0} (m : Result E A) (f : A → Result E B) (g : B → Result E C)
    → ((m >>= f) >>= g) ≡ (m >>= λ a. f a >>= g)
bind_assoc (ok a) f g = refl
bind_assoc (err e) f g = refl

pub bind_congr {ℓ} :
    {A B : Type ℓ} {E : Type 0} (m : Result E A) (f g : A → Result E B)
    → ((a : A) → f a ≡ g a)
    → (m >>= f) ≡ (m >>= g)
bind_congr (ok a) f g h = h a
bind_congr (err e) f g h = refl

pub bind-ok {ℓ} : {A : Type ℓ} {E : Type 0} (m : Result E A) → (m >>= ok) ≡ m
bind-ok (ok a) = refl
bind-ok (err e) = refl

-- Code runs in sequence.
pub execute-then : (c k : Code) (s : Store) → execute (c then k) s ≡ (execute c s >>= execute k)
unfolding execute ◌then◌
execute-then end k s = refl
execute-then (declare v c) k s = simp (bind_assoc, execute-then c k)
execute-then (define v z c) k s = simp (bind_assoc, execute-then c k)
execute-then (checked o l r v c) k s = simp (bind_assoc, execute-then c k)
execute-then (select_min l r v c) k s = simp (bind_assoc, execute-then c k)
execute-then (set v source c) k s = simp (bind_assoc, execute-then c k)
execute-then (branch t y n c) k s = simp (bind_assoc, execute-then c k)

-- A conditional that is entered with a new variable and a test that can be read.
pub execute-branch :
    (n t : ℕ) (body orelse : Code) (s inside : Store) {x : ℤ}
    → enter n none s ≡ ok inside
    → read t inside ≡ ok x
    → execute (declare n (branch t body orelse end)) s ≡ (
        (if eqb_ℤ x (pos 0) then execute orelse inside else execute body inside) >>= λ after.
        execute end (leave inside after))
unfolding execute
execute-branch n t body orelse s inside h g = rw (h, g) refl

-- The smaller of two variables, in a new one.
pub execute-min :
    (n l r : ℕ) (s inside : Store) {x y : ℤ}
    → enter n none s ≡ ok inside
    → read l inside ≡ ok x
    → read r inside ≡ ok y
    → execute (declare n (select_min l r n end)) s ≡ write n (if ltb_ℤ x y then x else y) inside
unfolding execute
execute-min n l r s inside {x} {y} h g f =
    rw (h, g, f) (bind-ok (write n (if ltb_ℤ x y then x else y) inside))
