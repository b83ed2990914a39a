-- ===== src/Lib.antt =====
-- Auto Reign: a chat service whose agents call tools, and its knowledge base.
--
-- An agent's run is a sequence of runtime events: pieces of text, whole assistant messages, starts
-- and results of tools. The event reducer (backend/app/services/runtime_event_reducer.py) takes them
-- one by one. It keeps the chain of messages that is stored and replayed to a model, the blocks that
-- a browser shows, and emits what the browser needs to follow. It makes and changes blocks only by
-- backend/app/services/chat_blocks.py, writes messages by backend/app/services/message_chain.py,
-- counts offsets by backend/app/services/text_offsets.py, and bounds everything that is stored by
-- backend/app/services/json_safety.py. Apart from that,
-- backend/app/services/knowledge_chunk_service.py cuts the documents of the knowledge base into the
-- pieces that are indexed, and the store of backend/app/services/chat_stream_memory.py keeps what
-- browsers that join a running stream need.
--
-- An answer of an agent is one execution of backend/app/services/task_execution_service.py. It marks
-- the row of its message as running, by backend/app/repositories/task_repository.py, feeds the
-- events of the runtime to a reducer, sends what that emits, and at the end claims the outcome and
-- stores it. Another thread may ask to cancel it at any moment, by
-- backend/app/services/task_execution_cancellation.py. Before that the service stores the user's
-- message and the answer to come, with the contexts that the message binds
-- (backend/app/repositories/subtask_context_repository.py), and reads the turns of the task again
-- for the runtime (backend/app/services/subtask_history.py and runtime_context_projection.py beside
-- it). The events of an agent come from backend/app/services/react_loop.py, which turns the messages
-- of a graph into them and keeps the results of tools within a budget of tokens. The files of a
-- workspace lie under the keys of backend/app/services/agent_home_paths.py.
--
-- Files, with the code that they model:
--   Prelude         what the files share: Python's str as a list of code points, dicts as association
--                   lists, results, and methods that change an object and may raise (Exec)
--   TextOffsets     text_offsets.py; Laws measures texts as a browser does
--   Json            json_safety.py: Scan has the loop of canonical_json, Dumps the writing by
--                   json.dumps, Canonical the two functions; Walk is the same as a recursion
--   Datetime        datetime.isoformat and fromisoformat of Python as far as the services use them,
--                   and the timestamps that chat_blocks.py writes and tests
--   RuntimeTypes    the events of runtime_types.py
--   ChatBlocks      chat_blocks.py: Types, Copy (_copy_text_block, _copy_tool_block), Updates (the
--                   operations); Laws and Lifecycle say what an accepted operation has done
--   MessageChain    message_chain.py: Messages, Serialize, Normalize, Validate (the loop, with its
--                   variables as a record); Trace is what a chain promises, Tracking and Sound the proof
--   Reducer         runtime_event_reducer.py: State (__init__), Deltas (_accept_delta), Assistants
--                   (_accept_assistant), Tools (_accept_tool_start, _accept_tool_result), Finish
--                   (finish_success, partial_result), Accept (accept); DeltaSteps, MessageSteps and
--                   ToolSteps say what an accepted event has done; Browser is the client, View,
--                   ViewLaws and Shows relate the two for one event, Runs for a whole run; Endings is
--                   about the result of a run that was broken off
--   StreamStore     chat_stream_memory.py: State has the store and the checks of chat_stream_types.py
--                   that it uses, Operations its methods, each one
--                   step under its lock; Sound and Steps are what each keeps, Reachable
--                   the stores that any sequence of operations leads to
--   Tasks           repositories/task_repository.py: Rows has the two tables and the queries, Writes and
--                   Edits the methods that write; Evolution and Steps say what one call does to the
--                   messages, Turns is about the rows of a new turn, Runs is any order of calls,
--                   Endings, Settled and Recovery are about the end of an answer
--   Cancellation    task_execution_cancellation.py: State and Registry have its two classes;
--                   Interleavings and Handover are about one execution, Filed and Early about the
--                   registry
--   TaskExecution   execute and _finish_execution of task_execution_service.py: Failures has the codes of
--                   errors, World what an execution reads and writes, Finish the end of an execution,
--                   Execute the rest; Ends says what is promised, Stores, Claims, Loop and
--                   Attempts that the parts keep it, Outcomes that the whole does
--   Preparation     prepare_send and prepare_retry of task_execution_service.py, with _prepare_runtime and
--                   _resolve_agent: Service has the session and the world outside, Send and Retry the two;
--                   Stages says what each part leaves, Sent what the whole does, Again what holds behind it
--   Contexts        repositories/subtask_context_repository.py: Rows has the table and the queries,
--                   Operations the methods that write; Bindings is what a call keeps, Requests is about
--                   one binding, Runs any order of calls
--   History         subtask_history.py, runtime_context_projection.py and _runtime_turns of
--                   task_execution_service.py: Projector, Projection and Turns have these three; Replay
--                   and Order are about what comes out
--   ReactLoop       react_loop.py: Chunks has the functions on one message, Stream the loop of stream, Budget
--                   the limits on tools and contexts; EventOrder and Protocol are about the
--                   loop, Shares about the limits
--   AgentHome       agent_home_paths.py: Paths; Segments and Keys are about the names it accepts
--   ChunkService    knowledge_chunk_service.py; Tiling, Stitching and Split are its proofs
--
-- Concurrency. A method that holds a lock from its first line to its last is one step, and threads
-- are sequences of such steps. An execution takes three lists: when a request to cancel comes before
-- it asks its state something, what the clock says and what the database makes of each session (its
-- commit may take effect and raise all the same), and at which events its reader leaves. Theorems
-- hold for all such lists.
--
-- State and errors. A method of the reducer or of the stream store takes the object and gives it
-- back also where it raises, so what was written before an error stays written. A function that
-- raises returns an err of its module's error type, named by the message of the exception.
--
-- Loops and fuel. Loops over lists are recursions. The loop of canonical_json has fuel for one round
-- more than its limit on nodes: each round counts a node, so the limit ends the loop first. The loop
-- over chunk ranges has one round for each character and one more, and each round moves on. The loop
-- of partial_result drops a block in each round. The loop over the messages of a graph is a
-- recursion over what its iterator gives, in which an exception is an item.
--
-- Parameters. json.loads, and the comparison of the arguments of two calls, are functions that the
-- reducer, the chain and the stream store take; uuid4 and the clock are inputs of each event and
-- each operation. The graph's iterator, the sum of two chunks, the counter of tokens and the results
-- of tools are parameters of the loop of an agent; the agent service, the reading of a stored model
-- reference and the runtime's preparation are parameters of Preparation, and whether a text is
-- base64 one of History.
--
-- Not modelled. A JSON value is a finite tree, so canonical_json's search for cycles has nothing to
-- find; repr of a float is carried by the value. Where the code tests the type of an argument that
-- the type checker fixes, the model has the type. fromisoformat reads only the forms that isoformat
-- can have written: the code refuses every other form behind it, as the text would not come back.
-- The sockets, the database engine, the model providers, the set-up of the graph, the stores of
-- streams in Redis and of vectors, and the services around them are not modelled.
mod Prelude
pub mod TextOffsets
pub mod Json
pub mod Datetime
pub mod ChunkService
pub mod RuntimeTypes
pub mod ChatBlocks
pub mod MessageChain
pub mod Reducer
pub mod StreamStore
pub mod Tasks
pub mod Cancellation
pub mod TaskExecution
pub mod ReactLoop
pub mod Contexts
pub mod AgentHome
pub mod History
pub mod Preparation
