-- ===== src/Agent/History/Clean.antt =====
-- What a chat carries is what it was told and what it answered.
use oumigo.Prelude.{
  arith, subst, ℕ, zero, suc, ◌-◌, ◌*◌, ◌≤◌, ◌≡◌, refl, ap, String, Bool, true, false, Option, none,
  some, List, [], ◌∷◌, ◌++◌, if◌then◌else◌, ◌==ₛ◌, ltb, length, All, Bool-cases, inl, inr,
}
use oumigo.Agent.Turn.{Message, system, user, assistant, tool_result, Agent}
use oumigo.Agent.History.{
  drop_front, trim_history, remember, Entry, clean_entry, prepend, normalize_history, trimmed,
  start, request, requests, entry_of, entries_of,
}

-- A message as a user sent it, or an answer without calls.
abbrev Plain : Message → Type 0
Plain (user t) = Unit
Plain (assistant (some t) []) = Unit
Plain (assistant (some t) (c ∷ cs)) = ⊥
Plain (assistant none cs) = ⊥
Plain (system t) = ⊥
Plain (tool_result id t) = ⊥

pub record IsClean (n : ℕ) (history : List Message) : Type 0 where
  pub bounded : length history ≤ 2 * n
  pub plain : All Plain history

length-drop_front : (n : ℕ) (xs : List Message) → length (drop_front n xs) ≡ length xs - n
unfolding drop_front
length-drop_front zero xs = omega arith
length-drop_front (suc n) [] = omega arith
length-drop_front (suc n) (x ∷ xs) = omega (arith, length-drop_front n xs)

All-drop_front : (n : ℕ) (xs : List Message) → All Plain xs → All Plain (drop_front n xs)
unfolding drop_front
All-drop_front zero xs h = h
All-drop_front (suc n) [] h = h
All-drop_front (suc n) (x ∷ xs) h = All-drop_front n xs h.1

trim_history-IsClean :
    (n : ℕ) (history : List Message) → All Plain history → IsClean n (trim_history n history)
unfolding trim_history
trim_history-IsClean n history h =
    let keep = 2 * n in
    elim (Bool-cases (ltb keep (length history))) [
      | inl e ↦ rw e (record {
        bounded = omega (arith, length-drop_front (length history - keep) history);
        plain = All-drop_front (length history - keep) history h;
      })
      | inr e ↦ rw e (record { bounded = ground (arith, e); plain = h })
    ]

trim_history-short :
    (n : ℕ) (history : List Message) → length history ≤ 2 * n → trim_history n history ≡ history
unfolding trim_history
trim_history-short n history h = ground (arith, h)

remember-IsClean :
    (n : ℕ) (contents answer : String) (history : List Message)
    → IsClean n history
    → IsClean n (remember n contents answer history)
unfolding remember
remember-IsClean zero contents answer history i = i
remember-IsClean (suc n) contents answer history i =
    trim_history-IsClean (suc n) _ (go history i.plain)
  where
    go :
        (h : List Message)
        → All Plain h
        → All Plain (h ++ user contents ∷ (assistant (some answer) [] ∷ []))
    go [] a = (tt, (tt, tt))
    go (m ∷ ms) a = (a.0, go ms a.1)

requests-IsClean :
    {A : Type 0} (prompt : Option String) (n : ℕ) (xs : List (Agent A × String))
    (history : List Message)
    → IsClean n history
    → IsClean n (requests prompt n xs history)
unfolding requests request
requests-IsClean prompt n [] history i = i
requests-IsClean prompt n (x ∷ xs) history i =
    requests-IsClean prompt n xs (request prompt n x history) (remember-IsClean n _ _ history i)

-- What is accepted, where it is, is plain.
abbrev FitsOne : Option Message → Type 0
FitsOne none = Unit
FitsOne (some m) = Plain m

abbrev Fits : Option (List Message) → Type 0
Fits none = Unit
Fits (some ms) = All Plain ms

if-FitsOne :
    (b c : Bool) (t : String)
    → FitsOne (if b then some (user t) else if c then some (assistant (some t) []) else none)
if-FitsOne true c t = tt
if-FitsOne false true t = tt
if-FitsOne false false t = tt

clean_entry-FitsOne : (role content : Option String) → FitsOne (clean_entry role content)
clean_entry-FitsOne none content = tt
clean_entry-FitsOne (some role) none = tt
clean_entry-FitsOne (some role) (some t) = if-FitsOne (role ==ₛ "user") (role ==ₛ "assistant") t

prepend-Fits :
    (m : Option Message) (ms : Option (List Message)) → FitsOne m → Fits ms → Fits (prepend m ms)
prepend-Fits none ms h k = tt
prepend-Fits (some m) none h k = tt
prepend-Fits (some m) (some ms) h k = (h, k)

normalize_history-Fits : (es : List Entry) → Fits (normalize_history es)
unfolding normalize_history
normalize_history-Fits [] = tt
normalize_history-Fits (e ∷ es) =
    prepend-Fits _ _ (clean_entry-FitsOne e.role e.content) (normalize_history-Fits es)

trimmed-IsClean :
    (n : ℕ) (o : Option (List Message)) (history : List Message)
    → Fits o
    → trimmed n o ≡ some history
    → IsClean n history
trimmed-IsClean n none history h e = absurd (cc e)
trimmed-IsClean n (some k) history h e = subst (IsClean n) (cc e) (trim_history-IsClean n k h)

start-IsClean :
    (n : ℕ) (es : List Entry) (history : List Message)
    → start n es ≡ some history
    → IsClean n history
unfolding start
start-IsClean n es history e =
    trimmed-IsClean n (normalize_history es) history (normalize_history-Fits es) e

normalize-entries_of :
    (ms : List Message) → All Plain ms → normalize_history (entries_of ms) ≡ some ms
unfolding normalize_history entries_of entry_of
normalize-entries_of [] h = refl
normalize-entries_of (user t ∷ ms) h = ap (prepend (some (user t))) (normalize-entries_of ms h.1)
normalize-entries_of (assistant (some t) [] ∷ ms) h =
    ap (prepend (some (assistant (some t) []))) (normalize-entries_of ms h.1)
normalize-entries_of (assistant (some t) (c ∷ cs) ∷ ms) h = absurd h.0
normalize-entries_of (assistant none cs ∷ ms) h = absurd h.0
normalize-entries_of (system t ∷ ms) h = absurd h.0
normalize-entries_of (tool_result id t ∷ ms) h = absurd h.0

start-entries_of : (n : ℕ) (ms : List Message) → IsClean n ms → start n (entries_of ms) ≡ some ms
unfolding start
start-entries_of n ms i =
    rw (normalize-entries_of ms i.plain) (ap some (trim_history-short n ms i.bounded))

-- For every chat whose stored history is accepted, after any requests to any agents, the history
-- has at most max_history_turns exchanges of two messages, each a user's or an answer without
-- calls; and a chat that is created with it, as it is stored, starts with just that history.
pub requests-rehydrate :
    {A : Type 0} (prompt : Option String) (n : ℕ) (es : List Entry) (history : List Message)
    (xs : List (Agent A × String))
    → start n es ≡ some history
    → let later = requests prompt n xs history in
      IsClean n later × (start n (entries_of later) ≡ some later)
requests-rehydrate prompt n es history xs e =
    let i = requests-IsClean prompt n xs history (start-IsClean n es history e) in
    (i, start-entries_of n _ i)
