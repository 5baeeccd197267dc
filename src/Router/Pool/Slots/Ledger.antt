-- ===== src/Router/Pool/Slots/Ledger.antt =====
-- How the slots that requests own change with the requests and with the futures.
use oumigo.Prelude.{
  ℕ, ◌+◌, ◌≡◌, refl, ap, String, Bool, true, false, List, [], ◌∷◌, ◌++◌, ◌==◌, ==_iff, ◌==ₛ◌, arith,
  inl, inr, Bool-cases,
}
use oumigo.Registry.{NodeRecord}
use oumigo.Router.Pool.{Future, pending, granted, set_future}
use oumigo.Router.Pool.Slots.{Request, waiting, holding, one_if, granted_on, owned, times}

owned-append :
    (futures : ℕ → Future) (n : String) (xs ys : List Request)
    → owned futures n (xs ++ ys) ≡ owned futures n xs + owned futures n ys
unfolding owned
owned-append futures n [] ys = omega arith
owned-append futures n (holding r ∷ xs) ys = omega (arith, owned-append futures n xs ys)
owned-append futures n (waiting f ∷ xs) ys = omega (arith, owned-append futures n xs ys)

times-append : (f : ℕ) (xs ys : List Request) → times f (xs ++ ys) ≡ times f xs + times f ys
unfolding times
times-append f [] ys = omega arith
times-append f (holding r ∷ xs) ys = times-append f xs ys
times-append f (waiting g ∷ xs) ys = omega (arith, times-append f xs ys)

-- The same of one request.
abbrev pub slots : (ℕ → Future) → String → Request → ℕ
slots futures n (holding r) = one_if (r.node_id ==ₛ n)
slots futures n (waiting f) = granted_on n (futures f)

abbrev pub waits_for : ℕ → Request → ℕ
waits_for f (holding r) = 0
waits_for f (waiting g) = one_if (g == f)

-- A request taken out from among the others.
pub owned-middle :
    (futures : ℕ → Future) (n : String) (xs ys : List Request) (q : Request)
    → owned futures n (xs ++ q ∷ ys) ≡ slots futures n q + owned futures n (xs ++ ys)
unfolding owned
owned-middle futures n xs ys (holding r) =
    omega (arith, owned-append futures n xs (holding r ∷ ys), owned-append futures n xs ys)
owned-middle futures n xs ys (waiting f) =
    omega (arith, owned-append futures n xs (waiting f ∷ ys), owned-append futures n xs ys)

pub times-middle :
    (f : ℕ) (xs ys : List Request) (q : Request)
    → times f (xs ++ q ∷ ys) ≡ waits_for f q + times f (xs ++ ys)
unfolding times
times-middle f xs ys (holding r) =
    omega (arith, times-append f xs (holding r ∷ ys), times-append f xs ys)
times-middle f xs ys (waiting g) =
    omega (arith, times-append f xs (waiting g ∷ ys), times-append f xs ys)

abbrev gain : Bool → ℕ → ℕ
gain true k = k
gain false k = 0

-- Each request that waits for a future gets a slot when the future is granted.
pub owned-grant :
    (futures : ℕ → Future) (n : String) (f : ℕ) (c : NodeRecord) (qs : List Request)
    → futures f ≡ pending
    → owned (set_future futures f (granted c)) n qs
      ≡ owned futures n qs + gain (c.node_id ==ₛ n) (times f qs)
unfolding owned times
owned-grant futures n f c [] h = ground arith
owned-grant futures n f c (holding r ∷ qs) h = ground (arith, owned-grant futures n f c qs h)
owned-grant futures n f c (waiting g ∷ qs) h =
    ground (arith, ==_iff f g, ==_iff g f, owned-grant futures n f c qs h)

-- A change to a future that is no grant and was none changes nothing.
pub owned-set_future :
    (futures : ℕ → Future) (n : String) (f : ℕ) (v : Future) (qs : List Request)
    → granted_on n (futures f) ≡ 0
    → granted_on n v ≡ 0
    → owned (set_future futures f v) n qs ≡ owned futures n qs
unfolding owned
owned-set_future futures n f v [] h k = refl
owned-set_future futures n f v (holding r ∷ qs) h k =
    ap (λ (t : ℕ). one_if (r.node_id ==ₛ n) + t) (owned-set_future futures n f v qs h k)
owned-set_future futures n f v (waiting g ∷ qs) h k = elim (Bool-cases (f == g)) [
  | inl e ↦
      let s : f ≡ g = (==_iff f g).0 e in
      rw (e, owned-set_future futures n f v qs h k)
        (omega (arith, k, ap (λ x. granted_on n (futures x)) s, h))
  | inr e ↦ rw (e, owned-set_future futures n f v qs h k)
]

-- So does one to a future that no request waits for.
pub owned-set_unused :
    (futures : ℕ → Future) (n : String) (f : ℕ) (v : Future) (qs : List Request)
    → times f qs ≡ 0
    → owned (set_future futures f v) n qs ≡ owned futures n qs
unfolding owned times
owned-set_unused futures n f v [] h = refl
owned-set_unused futures n f v (holding r ∷ qs) h =
    ap (λ (t : ℕ). one_if (r.node_id ==ₛ n) + t) (owned-set_unused futures n f v qs h)
owned-set_unused futures n f v (waiting g ∷ qs) h =
    ground (arith, ==_iff f g, ==_iff g f, owned-set_unused futures n f v qs)
