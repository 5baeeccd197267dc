-- ===== src/Agent/Turn.antt =====
-- The messages of a chat, the agent and what a turn keeps: src/oumigo/api/agent/chat.py.
-- The model, the tools, `json.loads`, `repr`, the clock and the guard profile are fields of the
-- agent; each check of the clock and each request to the model has a number. A chain gives ALLOW,
-- SKIP, BLOCK or STOP with the content after its transforms, which is `none` where it is not of the
-- type that the source tests for (a text, a list of messages, a dict of arguments). It is given the
-- content and what the source adds to it: the tool's name, or the messages. The same question has
-- the same answer: a guard that remembers is not modelled. Of a tool's call the id, the name and the
-- text of the arguments are read.
use oumigo.Prelude.{
  ℕ, ◌+◌, String, Bool, Option, none, some, List, [], ◌∷◌, ◌++◌, if◌then◌else◌, ◌==ₛ◌, ◌⊎◌,
}

pub record ToolCall : Type 0 where
  pub id : Option String
  pub name : String
  pub arguments : String

pub data Message : Type 0 where
  system user : String → Message
  assistant : Option String → List ToolCall → Message
  tool_result : Option String → String → Message

-- The verdict of a chain: the reason of one that halts may be empty.
pub data Ruling : Type 0 where
  allows : Ruling
  skips blocks stops : String → Ruling

-- What the model answers: a time-out, or a message with its reason to finish.
pub data Reply : Type 0 where
  timed_out : Reply
  answered : Option String → List ToolCall → Option String → Reply

-- The agent and its surroundings, where `A` is any value that arguments parse to. `knows`
-- tells which tools there are, and `invoke` is the body of one: it gives a text, or the text of what
-- it raised (as it does where the arguments are no dict).
pub record Agent (A : Type 0) : Type 0 where
  pub model : ℕ → List Message → Reply
  pub knows : String → Bool
  pub invoke : String → A → String ⊎ String
  pub parse : String → String ⊎ A
  pub repr : String → String
  pub expired : ℕ → Bool
  pub max_iterations : ℕ
  pub buffer_output : Bool
  pub on_input : String → Option String × Ruling
  pub on_prompt : List Message → Option (List Message) × Ruling
  pub on_call : String → A → Option A × Ruling
  pub on_result : String → String → Option String × Ruling
  pub on_turn : List Message → String → Option String × Ruling
  pub on_answer : List Message → String → Option String × Ruling

-- What a turn keeps: the text of the response, the messages, how often the clock was read,
-- and, the newest first, what the model was asked and which bodies ran on which arguments.
pub record Turn (A : Type 0) : Type 0 where
  pub text : String
  pub messages : List Message
  pub checks : ℕ
  pub asked : List (List Message)
  pub ran : List (String × A)

-- `reason or default`.
abbrev pub reason_or : String → String → String
reason_or reason default = if reason ==ₛ "" then default else reason

-- `content if isinstance(content, T) else raw`.
abbrev pub kept {ℓ} : {C : Type ℓ} → C → Option C → C
kept raw none = raw
kept raw (some content) = content

module _ {A : Type 0} where
  abbrev pub push : Message → Turn A → Turn A
  push m s = record s { messages = s.messages ++ m ∷ [] }

module _ {A : Type 0} (G : Agent A) where
  -- `_expired`.
  unfoldable pub check : Turn A → Turn A × Bool
  check s = (record s { checks = s.checks + 1 }, G.expired s.checks)
