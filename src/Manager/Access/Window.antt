-- ===== src/Manager/Access/Window.antt =====
-- How the limiter counts: failed attempts of a host within the window, and of no other host.
use oumigo.Prelude.{
  ℕ, ◌+◌, ◌-◌, ◌≤◌, ◌≡◌, refl, sym, ap, subst, ◌∙◌, String, Bool, false, ◌&&◌, Option, none, some,
  List, [], ◌∷◌, ◌++◌, if◌then◌else◌, ltb, leb, length, arith, Bool-cases, ◌==ₛ◌, ==ₛ_iff, All,
  All-append-one, inl, inr,
}
use oumigo.Prelude.Dict.{get, put, get-put}
use oumigo.Manager.Access.{
  FailureLimiter, drop_before, stored, times_of, recent, blocked, note, limiter,
}

-- What happens at the endpoints, in order: a look at a host, or a failed attempt of it.
pub data Event : Type 0 where
  looks : Option String → Event
  fails : Option String → Event

abbrev event : FailureLimiter → ℕ × Event → FailureLimiter
event l (now, looks host) = (blocked host now l).0
event l (now, fails host) = note host now l

unfoldable pub events : FailureLimiter → List (ℕ × Event) → FailureLimiter
events l [] = l
events l (e ∷ es) = events (event l e) es

-- Whether an event is a failure of `host` at or after `cutoff`, and how many of them there are.
abbrev counts : ℕ → String → ℕ × Event → Bool
counts cutoff host (t, looks h) = false
counts cutoff host (t, fails none) = false
counts cutoff host (t, fails (some h)) = h ==ₛ host && leb cutoff t

pub failed_since : ℕ → String → List (ℕ × Event) → ℕ
failed_since cutoff host [] = 0
failed_since cutoff host (e ∷ es) =
    (if counts cutoff host e then 1 else 0) + failed_since cutoff host es

-- The times do not decrease, from `first` to `last`.
abbrev pub IsTimed : ℕ → ℕ → List (ℕ × Event) → Type 0
IsTimed first last [] = first ≤ last
IsTimed first last ((t, e) ∷ es) = (first ≤ t) × IsTimed t last es

-- The times of a deque, oldest first, none later than `now`.
IsOrdered : ℕ → List ℕ → Type 0
IsOrdered now [] = Unit
IsOrdered now (t ∷ ts) = All (λ u. t ≤ u) ts × (t ≤ now) × IsOrdered now ts

-- How many of the times are at or after `cutoff`.
since : ℕ → List ℕ → ℕ
since cutoff [] = 0
since cutoff (t ∷ ts) = (if leb cutoff t then 1 else 0) + since cutoff ts

since-append :
    (c now : ℕ) (ts : List ℕ) → since c (ts ++ now ∷ []) ≡ since c ts + (if leb c now then 1 else 0)
unfolding since
since-append c now [] = ground arith
since-append c now (t ∷ ts) = ground (arith, since-append c now ts)

since-drop_before : (c d : ℕ) (ts : List ℕ) → d ≤ c → since c (drop_before d ts) ≡ since c ts
unfolding since drop_before
since-drop_before c d [] h = refl
since-drop_before c d (t ∷ ts) h = ground (arith, h, since-drop_before c d ts h)

since-All : (c d : ℕ) (ts : List ℕ) → c ≤ d → All (λ u. d ≤ u) ts → since c ts ≡ length ts
unfolding since
since-All c d [] h a = refl
since-All c d (t ∷ ts) h a = ground (arith, h, a.0, since-All c d ts h a.1)

-- In a deque that is ordered, the loop leaves just the times at or after the cutoff.
length-drop_before :
    (c now : ℕ) (ts : List ℕ) → IsOrdered now ts → length (drop_before c ts) ≡ since c ts
unfolding since drop_before IsOrdered
length-drop_before c now [] o = refl
length-drop_before c now (t ∷ ts) o = elim (Bool-cases (ltb t c)) [
  | inl e ↦ rw e (ground (arith, e, length-drop_before c now ts o.2))
  | inr e ↦ let h : c ≤ t = ground (arith, e) in rw e (ground (arith, e, since-All c t ts h o.0))
]

IsOrdered-le : (s t : ℕ) (ts : List ℕ) → s ≤ t → IsOrdered s ts → IsOrdered t ts
unfolding IsOrdered
IsOrdered-le s t [] h o = tt
IsOrdered-le s t (u ∷ ts) h o = (o.0, omega (arith, h, o.1), IsOrdered-le s t ts h o.2)

IsOrdered-drop_before :
    (c now : ℕ) (ts : List ℕ) → IsOrdered now ts → IsOrdered now (drop_before c ts)
unfolding IsOrdered drop_before
IsOrdered-drop_before c now [] o = tt
IsOrdered-drop_before c now (t ∷ ts) o = elim (Bool-cases (ltb t c)) [
  | inl e ↦ rw e (IsOrdered-drop_before c now ts o.2)
  | inr e ↦ rw e o
]

IsOrdered-append : (now : ℕ) (ts : List ℕ) → IsOrdered now ts → IsOrdered now (ts ++ now ∷ [])
unfolding IsOrdered
IsOrdered-append now [] o = (tt, omega arith, tt)
IsOrdered-append now (t ∷ ts) o =
    (All-append-one (λ u. t ≤ u) ts o.0 o.1, o.1, IsOrdered-append now ts o.2)

times_of-put :
    (host k : String) (ts : List ℕ) (l : FailureLimiter)
    → times_of host (record l { failures = put k ts l.failures })
      ≡ (if k ==ₛ host then ts else times_of host l)
unfolding times_of
times_of-put host k ts l =
    ap stored (get-put k host ts l.failures)
    ∙ (elim (Bool-cases (k ==ₛ host)) [ inl e ↦ rw e refl | inr e ↦ rw e refl ])

IsTimed-le :
    (first last : ℕ) (es : List (ℕ × Event)) (w c : ℕ)
    → IsTimed first last es
    → last - w ≤ c
    → first - w ≤ c
IsTimed-le first last [] w c u h = omega (arith, u, h)
IsTimed-le first last ((t, e) ∷ es) w c u h = omega (arith, u.0, IsTimed-le t last es w c u.1 h)

-- Each host's deque is ordered.
abbrev AreOrdered : ℕ → FailureLimiter → Type 0
AreOrdered now l = (host : String) → IsOrdered now (times_of host l)

recent-times :
    (host k : String) (now : ℕ) (l : FailureLimiter)
    → times_of host (recent k now l).0
      ≡ (if k ==ₛ host then drop_before (now - l.window) (times_of k l) else times_of host l)
unfolding recent
recent-times host k now l = times_of-put host k (drop_before (now - l.window) (times_of k l)) l

note-times :
    (host k : String) (now : ℕ) (l : FailureLimiter)
    → times_of host (note (some k) now l) ≡ (
        if k ==ₛ host
        then drop_before (now - l.window) (times_of k l) ++ now ∷ []
        else times_of host l)
unfolding note recent
note-times host k now l =
    let ts = drop_before (now - l.window) (times_of k l) in
    times_of-put host k (ts ++ now ∷ []) (record l { failures = put k ts l.failures })
    ∙ (elim (Bool-cases (k ==ₛ host)) [
      | inl e ↦ rw e refl
      | inr e ↦ rw e (times_of-put host k ts l ∙ rw e refl)
    ])

-- What an event at `t` does to a deque, where `b` tells that it adds a failure at or after `c`.
record Moved (c t : ℕ) (ts us : List ℕ) (b : Bool) : Type 0 where
  more : since c us ≡ since c ts + (if b then 1 else 0)
  ordered : IsOrdered t us

module _ (c t w : ℕ) (h : t - w ≤ c) where
  same-Moved : (ts : List ℕ) → IsOrdered t ts → Moved c t ts ts false
  same-Moved ts o = record { more = omega arith; ordered = o }

  drop-Moved : (ts : List ℕ) → IsOrdered t ts → Moved c t ts (drop_before (t - w) ts) false
  drop-Moved ts o = record {
    more = omega (arith, since-drop_before c (t - w) ts h);
    ordered = IsOrdered-drop_before (t - w) t ts o;
  }

  note-Moved :
      (ts : List ℕ) → IsOrdered t ts → Moved c t ts (drop_before (t - w) ts ++ t ∷ []) (leb c t)
  note-Moved ts o = record {
    more =
        since-append c t (drop_before (t - w) ts)
        ∙ ap (λ n. n + (if leb c t then 1 else 0)) (since-drop_before c (t - w) ts h);
    ordered = IsOrdered-append t _ (IsOrdered-drop_before (t - w) t ts o);
  }

-- The event is one of the host `k`.
at-Moved :
    (c t : ℕ) (host k : String) (l : FailureLimiter) (us : List ℕ) (b : Bool)
    → Moved c t (times_of k l) us b
    → IsOrdered t (times_of host l)
    → Moved c t (times_of host l) (if k ==ₛ host then us else times_of host l) (k ==ₛ host && b)
at-Moved c t host k l us b m o = elim (Bool-cases (k ==ₛ host)) [
  | inl e ↦ rw e (subst (λ j. Moved c t (times_of j l) us b) ((==ₛ_iff k host).0 e) m)
  | inr e ↦ rw e (record { more = omega arith; ordered = o })
]

module _ (c : ℕ) (host : String) (t : ℕ) (l : FailureLimiter) (h : t - l.window ≤ c)
    (o : AreOrdered t l) where
  looked-Moved : (k : String) → Moved c t (times_of host l) (times_of host (recent k t l).0) false
  looked-Moved k =
      let m =
        at-Moved c t host k l _ false (drop-Moved c t l.window h (times_of k l) (o k)) (o host) in
      subst (λ ts. Moved c t (times_of host l) ts false) (sym (recent-times host k t l))
        (record { more = ground (arith, m.more); ordered = m.ordered })

  event-Moved :
      (e : Event)
      → Moved c t (times_of host l) (times_of host (event l (t, e))) (counts c host (t, e))
  event-Moved (looks none) = unfold blocked in same-Moved c t l.window h (times_of host l) (o host)
  event-Moved (fails none) = unfold note in same-Moved c t l.window h (times_of host l) (o host)
  event-Moved (looks (some k)) = unfold blocked in looked-Moved k
  event-Moved (fails (some k)) =
      subst (λ ts. Moved c t (times_of host l) ts (k ==ₛ host && leb c t))
        (sym (note-times host k t l))
        (at-Moved c t host k l _ (leb c t) (note-Moved c t l.window h (times_of k l) (o k))
          (o host))

event-window :
    (l : FailureLimiter) (t : ℕ) (e : Event)
    → ((event l (t, e)).window ≡ l.window) × ((event l (t, e)).max_failures ≡ l.max_failures)
unfolding blocked note recent
event-window l t (looks none) = (refl, refl)
event-window l t (looks (some k)) = (refl, refl)
event-window l t (fails none) = (refl, refl)
event-window l t (fails (some k)) = (refl, refl)

-- What holds of a limiter after the events `es`.
record Follows (c : ℕ) (host : String) (now : ℕ) (l k : FailureLimiter) (es : List (ℕ × Event))
    : Type 0 where
  window : k.window ≡ l.window
  max_failures : k.max_failures ≡ l.max_failures
  more : since c (times_of host k) ≡ since c (times_of host l) + failed_since c host es
  ordered : IsOrdered now (times_of host k)

events-Follows :
    (c : ℕ) (host : String) (now first : ℕ) (l : FailureLimiter) (es : List (ℕ × Event))
    → IsTimed first now es
    → AreOrdered first l
    → now - l.window ≤ c
    → Follows c host now l (events l es) es
unfolding events failed_since
events-Follows c host now first l [] u o h = record {
  window = refl;
  max_failures = refl;
  more = omega arith;
  ordered = IsOrdered-le first now (times_of host l) u (o host);
}
events-Follows c host now first l ((t, e) ∷ es) u o h =
    let (a, b) = event-window l t e in
    let o' : AreOrdered t l = λ j. IsOrdered-le first t (times_of j l) u.0 (o j) in
    let m = event-Moved c host t l (IsTimed-le t now es l.window c u.1 h) o' e in
    let r =
      events-Follows c host now t (event l (t, e)) es u.1
        (λ j. (event-Moved (t - l.window) j t l (omega arith) o' e).ordered) (rw a h) in
    record {
      window = r.window ∙ a;
      max_failures = r.max_failures ∙ b;
      more = omega (arith, r.more, m.more);
      ordered = r.ordered;
    }

-- After any looks and failures, whose times do not decrease, of a limiter that starts empty, a host is
-- blocked just where at least `max_failures` of the failures are its own and lie in the last
-- `window`; looks, older failures and those of other hosts do not count.
pub blocked-failed_since :
    (max_failures window now : ℕ) (host : String) (es : List (ℕ × Event))
    → IsTimed 0 now es
    → (blocked (some host) now (events (limiter max_failures window) es)).1
      ≡ leb max_failures (failed_since (now - window) host es)
unfolding blocked recent limiter IsOrdered times_of get since
blocked-failed_since max_failures window now host es u =
    let l = limiter max_failures window in
    let f = events-Follows (now - window) host now 0 l es u (λ h. tt) (omega arith) in
    let k = events l es in
    let m : since (now - window) (times_of host k) ≡ failed_since (now - window) host es =
      omega (arith, f.more) in
    ap (λ n. leb n (length (drop_before (now - k.window) (times_of host k)))) f.max_failures
    ∙ ap (λ n. leb max_failures (length (drop_before (now - n) (times_of host k)))) f.window
    ∙ ap (leb max_failures) (length-drop_before (now - window) now (times_of host k) f.ordered ∙ m)
