-- ===== src/Datas/RBuffer/Cells.antt =====
-- The slots of a ring buffer that hold a queue, counted round the end of the array.
use ioriot.Prelude.{
  ℕ, zero, suc, ◌+◌, ◌-◌, ◌%◌, ◌≤◌, ◌<◌, ◌≡◌, ◌≢◌, ap, subst, ◌∙◌, List, [], ◌∷◌, ◌++◌, arith,
  get_or, set, length, get_or-set_ne,
}
use native.Mathlib.Nat.{mod-add-mod, mod-eq_of_lt, mod-eq-sub-mod}
use native.Mathlib.Decide.{dec_lt}

-- One or more steps short of a full turn do not lead back to the start.
pub add-mod-ne : (size h k : ℕ) → h < size → 0 < k → k < size → (h + k) % size ≢ h
add-mod-ne size h k hh pos hk = elim (dec_lt (h + k) size) [
  | yes p ↦ omega (arith, mod-eq_of_lt p)
  | no p ↦ omega (
    arith,
    mod-eq-sub-mod {n = h + k} {m = size} (omega arith),
    mod-eq_of_lt {n = h + k - size} {m = size} (omega arith),
  )
]

-- A full turn does.
pub add-mod_turn : (size h : ℕ) → h < size → (h + size) % size ≡ h
add-mod_turn size h hh = omega (
  arith,
  mod-eq-sub-mod {n = h + size} {m = size} (omega arith),
  mod-eq_of_lt {n = h + size - size} {m = size} (omega arith),
)

pub step-add : (size h k : ℕ) → (((h + 1) % size) + k) % size ≡ (h + suc k) % size
step-add size h k = rw mod-add-mod (ap (λ n. n % size) (omega arith))

-- The slots from `h` on hold the queue `q`, oldest first.
abbrev pub Cells : List ℕ → ℕ → ℕ → List ℕ → Type 0
Cells ring size h [] = Unit
Cells ring size h (x ∷ q) = (get_or ring h 0 ≡ x) × Cells ring size ((h + 1) % size) q

-- A write outside the slots of the queue leaves it as it is.
pub Cells-set :
    (ring : List ℕ) (size h k v : ℕ) (q : List ℕ)
    → h < size
    → length q ≤ k
    → k < size
    → Cells ring size h q
    → Cells (set ring ((h + k) % size) v) size h q
Cells-set ring size h k v [] hh hq hk c = tt
Cells-set ring size h zero v (x ∷ q) hh hq hk c = absurd (omega arith)
Cells-set ring size h (suc k) v (x ∷ q) hh hq hk c = (
  get_or-set_ne ring _ h v 0 (add-mod-ne size h (suc k) hh (omega arith) hk) ∙ c.0,
  subst (λ i. Cells (set ring i v) size ((h + 1) % size) q) (step-add size h k)
      (Cells-set ring size ((h + 1) % size) k v q (omega arith) (omega arith) (omega arith) c.1),
)

-- The slot behind the queue extends it.
pub Cells-append :
    (ring : List ℕ) (size h x : ℕ) (q : List ℕ)
    → h < size
    → Cells ring size h q
    → get_or ring ((h + length q) % size) 0 ≡ x
    → Cells ring size h (q ++ x ∷ [])
Cells-append ring size h x [] hh c e = (rw (← e) (ap (λ i. get_or ring i 0) here), tt)
  where
    here : h ≡ (h + 0) % size
    here = omega (arith, mod-eq_of_lt {n = h + 0} {m = size} (omega arith))
Cells-append ring size h x (y ∷ q) hh c e = (
  c.0,
  Cells-append ring size ((h + 1) % size) x q (omega arith) c.1 (rw (step-add size h (length q)) e),
)
