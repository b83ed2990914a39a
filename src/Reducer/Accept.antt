-- ===== src/Reducer/Accept.antt =====
-- `accept`, and a run of the reducer over a sequence of events.
use auto_reign.Prelude.{List, [], ◌∷◌, ◌++◌}
use auto_reign.Prelude.Exec.{pure, ◌>>=◌}
use auto_reign.RuntimeTypes.{RuntimeEvent, text_delta, assistant_message, tool_start, tool_result}
use auto_reign.ChatBlocks.{Fresh}
use auto_reign.Reducer.State.{Emission, Method, Python}
use auto_reign.Reducer.Deltas.{accept_delta}
use auto_reign.Reducer.Assistants.{accept_assistant}
use auto_reign.Reducer.Tools.{accept_tool_start, accept_tool_result}

unfoldable pub accept : Python → Fresh → RuntimeEvent → Method (List Emission)
accept python fresh (text_delta content) = accept_delta fresh content
accept python fresh (assistant_message event) = accept_assistant python event
accept python fresh (tool_start call) = accept_tool_start python fresh call
accept python fresh (tool_result call result) = accept_tool_result python call result

-- The caller stops at the first error; each event comes with the id and the time of its moment.
unfoldable pub accept_all : Python → List (Fresh × RuntimeEvent) → Method (List Emission)
accept_all python [] = pure []
accept_all python ((fresh, event) ∷ events) = do
  emitted ← accept python fresh event
  later ← accept_all python events
  pure (emitted ++ later)
