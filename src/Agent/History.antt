-- ===== src/Agent/History.antt =====
-- The conversation that a chat carries: `OumiGoChat` of src/oumigo/api/agent/chat.py from a stored
-- history on, over its turns.
pub mod Clean
mod Tests
use oumigo.Prelude.{
  ℕ, zero, suc, ◌+◌, ◌-◌, ◌*◌, String, Bool, true, false, Option, none, some, List, [], ◌∷◌, ◌++◌,
  if◌then◌else◌, ◌==ₛ◌, ltb, length,
}
use oumigo.Agent.Turn.{Message, system, user, assistant, tool_result, Agent, Turn}
use oumigo.Agent.Chat.{run}

-- `history[-n:]`, of a list longer than `n`.
pub drop_front : {A : Type 0} → ℕ → List A → List A
drop_front zero xs = xs
drop_front (suc n) [] = []
drop_front (suc n) (x ∷ xs) = drop_front n xs

-- `_trim_history`.
pub trim_history : ℕ → List Message → List Message
trim_history max_history_turns history =
    let keep = 2 * max_history_turns in
    if ltb keep (length history) then drop_front (length history - keep) history else history

-- `_remember`.
pub remember : ℕ → String → String → List Message → List Message
remember zero contents answer history = history
remember (suc n) contents answer history =
    trim_history (suc n) (history ++ user contents ∷ (assistant (some answer) [] ∷ []))

-- An entry of a history from outside: its role and its content, where they are texts.
pub record Entry : Type 0 where
  pub role : Option String
  pub content : Option String

abbrev pub clean_entry : Option String → Option String → Option Message
clean_entry none content = none
clean_entry (some role) none = none
clean_entry (some role) (some t) =
    if role ==ₛ "user"
    then some (user t)
    else if role ==ₛ "assistant"
    then some (assistant (some t) [])
    else none

abbrev pub prepend : Option Message → Option (List Message) → Option (List Message)
prepend none ms = none
prepend (some m) none = none
prepend (some m) (some ms) = some (m ∷ ms)

-- `_normalize_history`, where a refusal raises.
pub normalize_history : List Entry → Option (List Message)
normalize_history [] = some []
normalize_history (e ∷ es) = prepend (clean_entry e.role e.content) (normalize_history es)

abbrev pub trimmed : ℕ → Option (List Message) → Option (List Message)
trimmed n none = none
trimmed n (some history) = some (trim_history n history)

-- `__init__`: the history that a chat starts with.
unfoldable pub start : ℕ → List Entry → Option (List Message)
start max_history_turns history = trimmed max_history_turns (normalize_history history)

-- `_build_messages` up to the user's message.
pub build_messages : Option String → List Message → List Message
build_messages none history = history
build_messages (some t) history = if t ==ₛ "" then history else system t ∷ history

-- `request`, as it leaves the history.
unfoldable pub request :
    {A : Type 0} → Option String → ℕ → Agent A × String → List Message → List Message
request prompt max_history_turns (G, contents) history =
    let (turn, reason, said) = run G contents (build_messages prompt history) in
    remember max_history_turns said turn.text history

pub requests :
    {A : Type 0} → Option String → ℕ → List (Agent A × String) → List Message → List Message
requests prompt n [] history = history
requests prompt n (x ∷ xs) history = requests prompt n xs (request prompt n x history)

-- The property `history`: a message as the entry that is stored.
pub entry_of : Message → Entry
entry_of (system t) = record { role = some "system"; content = some t }
entry_of (user t) = record { role = some "user"; content = some t }
entry_of (assistant content calls) = record { role = some "assistant"; content = content }
entry_of (tool_result id t) = record { role = some "tool"; content = some t }

pub entries_of : List Message → List Entry
entries_of [] = []
entries_of (m ∷ ms) = entry_of m ∷ entries_of ms
