-- ===== src/Worker/Ports.antt =====
-- The preflight for a free port: `find_free_port` of src/oumigo/service/worker/supervisor.py.
-- What the operating system answers to `bind` on a port is an argument.
use native.Mathlib.Decide.{ℕ_discrete}
use oumigo.Prelude.{ℕ, zero, suc, ◌+◌, ◌≤◌, ◌<◌, ◌≡◌, refl, arith}

-- `bind` succeeds, fails with EADDRINUSE, or fails otherwise.
pub data Bound : Type 0 where
  bound in_use refused : Bound

-- A port, `PortUnavailable`, or another `OSError`.
pub data Found : Type 0 where
  free : ℕ → Found
  unavailable : Found
  os_error : Found

-- The loop, with `tries` rounds left.
unfoldable pub scan : (ℕ → Bound) → ℕ → ℕ → Found
scan bind zero candidate = unavailable
scan bind (suc tries) candidate = elim (bind candidate) [
  | bound ↦ free candidate
  | in_use ↦ scan bind tries (candidate + 1)
  | refused ↦ os_error
]

abbrev pub max_tries : ℕ
max_tries = 64

unfoldable pub find_free_port : (ℕ → Bound) → ℕ → Found
find_free_port bind preferred = scan bind max_tries preferred

-- What a scan that starts at `candidate` may answer.
abbrev pub Answers : (ℕ → Bound) → ℕ → ℕ → Found → Type 0
Answers bind tries candidate (free port) =
    (candidate ≤ port)
    × (port < candidate + tries)
    × (bind port ≡ bound)
    × ((p : ℕ) → candidate ≤ p → p < port → bind p ≡ in_use)
Answers bind tries candidate unavailable =
    (p : ℕ) → candidate ≤ p → p < candidate + tries → bind p ≡ in_use
Answers bind tries candidate os_error =
    (port : ℕ) × (candidate ≤ port)
    × (port < candidate + tries)
    × (bind port ≡ refused)
    × ((p : ℕ) → candidate ≤ p → p < port → bind p ≡ in_use)

extend_below :
    (bind : ℕ → Bound) (candidate port : ℕ)
    → bind candidate ≡ in_use
    → ((p : ℕ) → candidate + 1 ≤ p → p < port → bind p ≡ in_use)
    → (p : ℕ) → candidate ≤ p
    → p < port
    → bind p ≡ in_use
extend_below bind candidate port e later p h l = elim (ℕ_discrete candidate p) [
  | yes same ↦ rw (← same) e
  | no other ↦ later p (omega arith) l
]

extend :
    (bind : ℕ → Bound) (tries candidate : ℕ) (x : Found)
    → bind candidate ≡ in_use
    → Answers bind tries (candidate + 1) x
    → Answers bind (suc tries) candidate x
extend bind tries candidate (free port) e (lo, hi, b, before) =
    (omega arith, omega arith, b, extend_below bind candidate port e before)
extend bind tries candidate unavailable e a = λ p h l.
    extend_below bind candidate (candidate + suc tries) e (λ q i j. a q i (omega arith)) p h l
extend bind tries candidate os_error e (port, lo, hi, b, before) =
    (port, omega arith, omega arith, b, extend_below bind candidate port e before)

scan-Answers :
    (bind : ℕ → Bound) (tries candidate : ℕ)
    → Answers bind tries candidate (scan bind tries candidate)
unfolding scan
scan-Answers bind zero candidate = λ p h l. absurd (omega arith)
scan-Answers bind (suc tries) candidate =
    go (bind candidate) refl (scan-Answers bind tries (candidate + 1))
  where
    go :
        (b : Bound)
        → bind candidate ≡ b
        → Answers bind tries (candidate + 1) (scan bind tries (candidate + 1))
        → Answers bind (suc tries) candidate (elim b [
          | bound ↦ free candidate
          | in_use ↦ scan bind tries (candidate + 1)
          | refused ↦ os_error
        ])
    go bound e rest = (omega arith, omega arith, e, λ p h l. absurd (omega arith))
    go in_use e rest = extend bind tries candidate _ e rest
    go refused e rest = (candidate, omega arith, omega arith, e, λ p h l. absurd (omega arith))

-- The port found is the first of the 64 from the preferred one on that is free, all before it being
-- in use; none is found just where all 64 are in use; and another failure to bind is passed on at
-- the first port, before any free one, where it occurs.
pub find_free_port-Answers :
    (bind : ℕ → Bound) (preferred : ℕ)
    → Answers bind max_tries preferred (find_free_port bind preferred)
unfolding find_free_port
find_free_port-Answers bind preferred = scan-Answers bind max_tries preferred
