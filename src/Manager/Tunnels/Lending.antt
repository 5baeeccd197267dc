-- ===== src/Manager/Tunnels/Lending.antt =====
-- To whom a connection is lent.
use oumigo.Prelude.{
  ℕ, ◌+◌, ◌≤◌, ◌≡◌, Bool, not, Option, none, some, List, [], ◌∷◌, if◌then◌else◌, ◌==◌, any, ◌⊎◌,
}
use oumigo.Manager.Tunnels.{
  Tunnels, no_tunnels, hand, add, remove, acquire, finish, TunnelStep, adds, removes, acquires,
  finishes,
}

-- The entries of one node, with the connections that were lent and those that were added, newest first.
pub record Course : Type 0 where
  pub tunnels : Tunnels
  pub lent : List ℕ
  pub added : List ℕ

abbrev pub begin : Course
begin = record { tunnels = no_tunnels; lent = []; added = [] }

abbrev pub times : ℕ → List ℕ → ℕ
times k [] = 0
times k (j ∷ ks) = (if j == k then 1 else 0) + times k ks

-- A connection is added once, when it is accepted. `add` lends it where a waiter gets it.
abbrev lend : Option ℕ → List ℕ → List ℕ
lend none lent = lent
lend (some k) lent = k ∷ lent

abbrev is_new : ℕ → Course → Bool
is_new k x = not (any (λ j. j == k) x.added)

unfoldable pub advance : Course → TunnelStep → Course
advance x (adds k) =
    if is_new k x
    then record {
      tunnels = add k x.tunnels;
      lent = if (hand k x.tunnels.waiters x.tunnels.futures).2 then k ∷ x.lent else x.lent;
      added = k ∷ x.added;
    }
    else x
advance x (removes k) = record x { tunnels = remove k x.tunnels }
advance x (acquires is_closed f) =
    let (t, o) = acquire is_closed f x.tunnels in record x { tunnels = t; lent = lend o x.lent }
advance x (finishes f) = record x { tunnels = finish f x.tunnels }

unfoldable pub course : Course → List TunnelStep → Course
course x [] = x
course x (s ∷ steps) = course (advance x s) steps

-- A connection is parked or was lent at most as often as it was added, which is once, and none is
-- parked while a request waits.
record IsSound (x : Course) : Type 0 where
  once : (k : ℕ) → times k x.lent + times k x.tunnels.idle ≤ times k x.added
  new : (k : ℕ) → times k x.added ≤ 1
  used : (x.tunnels.idle ≡ []) ⊎ (x.tunnels.waiters ≡ [])
