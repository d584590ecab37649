-- ===== src/Lib.antt =====
-- NaN-itself: the core of the agent runtime (nan/).
--
-- An agent is one loop over its own state. Each round reads its latches and its open turn and
-- chooses an action (nan/agent/control.py); a turn observes the inbox, collects what local
-- services contribute (nan/injection), asks the model (nan/agent/engine.py), runs the verbs that it
-- called, and commits. A turn is a record (nan/turn/model.py) that is rendered once into the
-- messages of the conversation (nan/turn/render.py). Observers follow by the event sink
-- (nan/events.py). Every agent is one snapshot file (nan/persistence), from which the next process
-- builds the agents again (nan/boot.py); the model is reached by nan/llm/provider.py.
--
-- Which file models what:
--   Base        Python's dicts, texts, JSON values and integers, as far as the program uses them.
--   Llm         nan/llm: `Types` messages, calls and streamed events, field by field; `Calls`,
--               `Anthropic`, `OpenAi` and `Reasoning` the functions of provider.py by their names, `Stream` and
--               `Events` the loops of `_stream_openai` and `_stream_anthropic`; `Alternation` the
--               proofs about the merging of messages, `Assembly` those about the tool buffers, `Sorted`
--               those about the order of the calls, `Replay` those about reasoning that goes back.
--   Turn        nan/turn: `Model` the records, `noted` and `close_interrupted`; `Render` the
--               rendering, function by function; `Codec` the JSON forms, read field by field with
--               the exceptions that the reading may raise (`Base/Read`).
--   Persistence nan/persistence/snapshot.py: `Snapshot` one agent's snapshot, `Store` the files; a
--               write is its list of steps: the temporary file, each piece that `json.dump` writes to the
--               handle's buffer, the flush, the sync, the replacement and the sync of the
--               directory. An exception or the end of the process leaves a part of them. `Files`,
--               `Saved` and `Atomic` are proofs.
--   Boot        nan/boot.py: `Subtree` the walk over the spawn tree, `Restore` the rebuilding of
--               the agents. `Fuel`, `Reach` and `Turns` are proofs.
--   Events      nan/events.py: `emit` is `stamp` (the envelope), `record_event` (the history) and
--               `offer` (each subscriber's queue).
--   Utils       nan/utils/loopback.py.
--   Injection   nan/injection: `Hub` the handlers of the registry and the two deliveries, `Client`
--               the requests to one service.
--   Gateway     nan/gateway.py: `Mids` the cache of input ids, `Surfaces` the table of panels and its
--               handlers, `Route` a client's message with the callbacks of nan/app.py. `View` and `Inbox`
--               are proofs: what the desktops see, and what they put in the root's inbox.
--   Execution   nan/execution: `Sandbox` and `Jobs` after the files; `Kept` the proofs about jobs,
--               over the steps of `_background` (nan/agent/verbs/shell.py), which registers a job only
--               after its grace.
--   Agent       nan/agent: `Control`, `Failure` and `Engine` after the files of those names;
--               `State` the attributes and the synchronous methods of `Agent` in core.py; `Run`
--               an await; `Turns` the coroutines of core.py, each by its name. The proofs about
--               them: `History` the cached conversation; `Triple` rules for what a coroutine does
--               to the turns and the started verbs, `Silent`, `Once`, `Phases`, `Lives` and `Verbs`
--               a turn from its opening through every attempt, `Resumption` a resumed turn,
--               `Undisturbed` a turn that nothing stops; `Dialogue` the prompt in Anthropic's
--               protocol; `Answer`, `Blocks` and `Pieces` a stream, through the provider and the engine;
--               `Shell` the truncation of a command's output (agent/verbs/__init__.py).
--               `Tree` the methods of core.py that reach other agents, over a dict of all agents by
--               id; the proofs in it: `Shape`, `Grow`, `Prune`, `Keep`, `Places` and `Reach` parents and
--               children, `Cascade` and `Frozen` pause and resume. `Acts` the verbs of agent/verbs,
--               `Acts/Command` the checks of `shell`, `Acts/Protocol` the definitions that the model is
--               told; `Acts/Local` whom a verb reaches.
--   Tests       The theorems at concrete inputs, and runs of the definitions.
--
-- Times and floats are natural numbers of clock steps, thousandths where a constant is compared.
-- Python's clock, its URL and address parsers, the answers of services and models, the outputs of
-- verbs and whether a write to disk succeeds are parameters: the theorems hold for all of them. So
-- are the `json` module and the dumping and validating of pydantic's classes, of which a few theorems
-- state by name what they rely on. A value of a JSON text that is not of the annotated type, which
-- Python would take, is read as `untyped`.
-- An await is a step at which other tasks may deliver, note, pause, resume, kill, finish or suspend,
-- and at which a cancellation that was asked for is raised; the task of a turn makes its first step after
-- one. A loop that Python runs without a bound
-- takes the number of its rounds; the walk over the spawn tree has one for its root and one for
-- each entry of the tree, which Boot/Fuel shows to be enough; loops over collections, the retry
-- ladder among them, recur on the collection; `pause` and `resume` over the tree have one round for each
-- agent, which is enough since each round changes an agent at which the next stops. The queues' and the history's sizes are fields, so no
-- bound is fixed.
--
-- A handler of the gateway, a spawning and a disposal are one step each: what other tasks do while they
-- wait for a send or for the disk comes before or after.
--
-- Not modelled: logging, HTTP and WebSocket servers, subprocesses, the requests to the model providers,
-- start-up and shutdown, the browser front end and the services
-- outside nan/.
pub mod Base
pub mod Llm
pub mod Events
pub mod Turn
pub mod Utils
pub mod Gateway
pub mod Execution
pub mod Injection
pub mod Agent
pub mod Persistence
pub mod Boot
mod Tests
