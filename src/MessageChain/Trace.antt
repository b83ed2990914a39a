-- ===== src/MessageChain/Trace.antt =====
-- What a chain promises, told without the variables of the loop that validates it: the calls and
-- the answers of a list of messages.
use auto_reign.Prelude.{
  ℕ, suc, ◌+◌, ◌≤◌, ◌≡◌, refl, Bool, true, false, ◌&&◌, ◌||◌, List, [], ◌∷◌, ◌++◌, append_assoc,
  append-nil, Text, arith, ◌==◌, text_key, length, if◌then◌else◌,
}
use auto_reign.MessageChain.Messages.{Call, Message, assistant, tool}

pub data ChainEvent : Type 0 where
  called : Text → Text → ChainEvent
  answered : Text → ChainEvent

abbrev pub call_events : List Call → List ChainEvent
call_events [] = []
call_events (call ∷ calls) = called call.id call.name ∷ call_events calls

abbrev pub message_events : Message → List ChainEvent
message_events (assistant m) = call_events m.tool_calls
message_events (tool m) = answered m.tool_call_id ∷ []

abbrev pub events : List Message → List ChainEvent
events [] = []
events (m ∷ ms) = message_events m ++ events ms

-- How often a call with this id is declared, and answered.
abbrev pub calls_of : Text → List ChainEvent → ℕ
calls_of id [] = 0
calls_of id (called j name ∷ es) = (if id == j then 1 else 0) + calls_of id es
calls_of id (answered j ∷ es) = calls_of id es

abbrev pub answers_of : Text → List ChainEvent → ℕ
answers_of id [] = 0
answers_of id (called j name ∷ es) = answers_of id es
answers_of id (answered j ∷ es) = (if id == j then 1 else 0) + answers_of id es

abbrev pub is_called_as : Text → Text → List ChainEvent → Bool
is_called_as id name [] = false
is_called_as id name (called j other ∷ es) = id == j && name == other || is_called_as id name es
is_called_as id name (answered j ∷ es) = is_called_as id name es

abbrev pub total_calls : List ChainEvent → ℕ
total_calls [] = 0
total_calls (called _ _ ∷ es) = suc (total_calls es)
total_calls (answered _ ∷ es) = total_calls es

-- What a message needs of those before it: an assistant speaks when every call has its answer, and
-- an answer follows a call with its id and its name that has none yet.
abbrev pub Fits : List ChainEvent → Message → Type 0
Fits before (assistant m) = (id : Text) → answers_of id before ≡ calls_of id before
Fits before (tool m) =
    (is_called_as m.tool_call_id m.name before ≡ true) × (answers_of m.tool_call_id before ≡ 0)

abbrev pub AllFit : List ChainEvent → List Message → Type 0
AllFit before [] = Unit
AllFit before (m ∷ ms) = Fits before m × AllFit (before ++ message_events m) ms

-- A chain: each message fits behind those before it, every call is declared once and answered
-- once, and the two limits hold.
pub record IsChain (ms : List Message) : Type 0 where
  pub ordered : AllFit [] ms
  pub declared_once : (id : Text) → calls_of id (events ms) ≤ 1
  pub answered_once : (id : Text) → answers_of id (events ms) ≡ calls_of id (events ms)
  pub few_calls : total_calls (events ms) ≤ 128
  pub few_messages : length ms ≤ 256

pub calls_of-append :
    (id : Text) (es fs : List ChainEvent) → calls_of id (es ++ fs) ≡ calls_of id es + calls_of id fs
calls_of-append id [] fs = omega arith
calls_of-append id (called j name ∷ es) fs = omega (arith, calls_of-append id es fs)
calls_of-append id (answered j ∷ es) fs = calls_of-append id es fs

pub answers_of-append :
    (id : Text) (es fs : List ChainEvent)
    → answers_of id (es ++ fs) ≡ answers_of id es + answers_of id fs
answers_of-append id [] fs = omega arith
answers_of-append id (called j name ∷ es) fs = answers_of-append id es fs
answers_of-append id (answered j ∷ es) fs = omega (arith, answers_of-append id es fs)

pub is_called_as-append :
    (id name : Text) (es fs : List ChainEvent)
    → is_called_as id name (es ++ fs) ≡ (is_called_as id name es || is_called_as id name fs)
is_called_as-append id name [] fs = refl
is_called_as-append id name (called j other ∷ es) fs =
    ground (arith, is_called_as-append id name es fs)
is_called_as-append id name (answered j ∷ es) fs = is_called_as-append id name es fs

pub total_calls-append :
    (es fs : List ChainEvent) → total_calls (es ++ fs) ≡ total_calls es + total_calls fs
total_calls-append [] fs = omega arith
total_calls-append (called j name ∷ es) fs = omega (arith, total_calls-append es fs)
total_calls-append (answered j ∷ es) fs = total_calls-append es fs

pub events-append : (ms ns : List Message) → events (ms ++ ns) ≡ events ms ++ events ns
events-append [] ns = refl
events-append (m ∷ ms) ns = simp (events-append ms ns, append_assoc)

pub AllFit-append :
    (before : List ChainEvent) (ms : List Message) (m : Message)
    → AllFit before ms
    → Fits (before ++ events ms) m
    → AllFit before (ms ++ m ∷ [])
AllFit-append before [] m fit last = (rw append-nil at last, tt)
AllFit-append before (n ∷ ms) m fit last =
    (fit.0, AllFit-append (before ++ message_events n) ms m fit.1 (rw append_assoc last))
