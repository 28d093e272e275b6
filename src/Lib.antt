-- ===== src/Lib.antt =====
-- minicore-runtime: the core of an agent loop, a task that alternates model requests and tool calls
-- under the control of a host.
--
-- The parts and how they interact. A host starts a loop and keeps a handle. Handles and the runner
-- of the loop share the control plane (src/agent_loop/control.rs): the handles cancel, update the
-- configuration and answer interactions; the runner takes configurations at request boundaries,
-- opens interactions, and seals the loop. For each request the model driver
-- (src/model/driver.rs, src/model/driver/failure.rs) makes attempts within a deadline, with a wait
-- between them. The response's tool calls are a batch (src/agent_loop/runner/tools.rs): each call
-- passes the policy, may ask the host for an approval or for input, and leaves one result in the
-- history. Every call of a port, of a model, a tool or a policy, has a deadline and a cancellation
-- token of its own (src/port_call.rs, src/time.rs).
--
-- The files and what they model:
--   Base         numbers, options, results, tests on them; Base.Lists and Base.Results their lemmas
--   Text         src/value.rs, BoundedText, valid_text, normalize_model_text; Text.Stream
--                normalized_delta of src/model/driver/assembler.rs
--   Json         src/value.rs, validate_json_size and validate_json_shape
--   Limits       src/limits.rs
--   Ids          src/ids.rs, and the grammars of src/tools/types.rs and src/model/model_ref.rs
--   Interaction  src/interaction.rs, src/tools/input.rs, the approvals of src/tools/policy.rs
--   Control      src/agent_loop/control.rs, src/agent_loop/state.rs, ConfigRevision of
--                src/execution.rs; Control.Calls the calls of src/agent_loop/handle.rs and of the
--                runner as the steps of a history, Control.Host those of the handles alone
--   Diagnostic   src/error.rs
--   ModelError   src/model/error.rs
--   Usage        src/usage.rs, src/model/usage.rs
--   PortCall     src/port_call.rs, src/time.rs
--   Event        the sink of src/agent_loop/event.rs
--   Tools        the outcome and the output of a tool, src/tools/types.rs and src/tools/tool.rs
--   Message      assistant parts and tool calls of src/model/message.rs
--   Exchange     ModelMessage of src/model/message.rs, validate_tool_exchange of
--                src/model/request.rs; Exchange.Replay src/model/replay.rs, Exchange.Wire how
--                messages are written and read
--   Batch        the results of src/agent_loop/runner/tools.rs; Batch.Port the answers of the policy,
--                the tool and the host, Batch.Call the calls and the batch
--   Response     src/model/response.rs
--   Execution    src/execution.rs, with the descriptor of src/model/port.rs and the specifications of
--                src/tools/tool.rs
--   Request      src/model/request.rs, and validate_request of src/model/driver.rs
--   History      src/history.rs
--   Options      the options and the start of src/agent_loop/mod.rs
--   Runner       the ends of src/agent_loop/runner.rs; Runner.Turn the parts of a pass through its
--                loop, with src/agent_loop/runner/model.rs, Runner.Pass the pass, Runner.Loop the
--                loop
--   Assembler    src/model/driver/assembler.rs; Assembler.Finish its finish,
--                Assembler.Attempt run_attempt of src/model/driver.rs
--   ModelCall    a call of src/model/driver.rs with the progress of its attempts
--   ToolSet      src/tools/set.rs
--   Forward      run_model and forward_progress of src/agent_loop/runner/model.rs
--   Prompt       the default provider of src/prompt.rs
--   Driver       src/model/driver/failure.rs; Driver.Run the loop of src/model/driver.rs
-- A type or function has the name of the source in the spelling of this library. The files below a
-- file hold the theorems on it, and its Examples the concrete instances and tests.
--
-- How it is modelled. A text is the list of its characters' code points, an id or a name the list
-- of its bytes. Fixed-width counts are native numbers with the source's checked, saturating or
-- bounded arithmetic written out. An instant or a duration is a number of nanoseconds, and `limit`
-- bounds the instants that can be represented. The control plane is one record, and a history is
-- the list of calls in the order of their critical sections: each runs under the lock or is one
-- atomic access, except that `update` reads the state before it locks and that `mark_cancel`
-- cancels the token after it has exchanged the state, which is one step here. The answers sent
-- into one-shot channels are recorded in `sent`, also if the receiver is gone. A future is the list
-- of the wakes of its task, each with what the arms of `select!` find; a function that still waits
-- when the wakes end gives none.
--
-- What is code of others is a parameter: the JSON serializer gives the chunks that it writes and
-- whether it succeeds, the JSON parser a value or none, the random source gives its buffers, the
-- queues the answer of each `try_send` and what they hold, and models, tools and policies their
-- outcomes. The instant at which a wait for a retry ends is taken to be representable.
--
-- The runner is a list of passes through its loop. Each pass has what comes from outside: what the
-- handles do before it, while the prompt is prepared and while the model runs, the time, the inputs,
-- and the outcomes of the prompt provider, the driver and the tools. Handles act on the control plane
-- only between the points at which the runner reads or writes it, which loses no interleaving.
--
-- No fuel is used: every loop is structural on a list of the source or on the wakes and rounds that
-- the environment gives.
--
-- A panic leaves an attempt where the source leaves it: by the expects of the assembler, and when the
-- future or the stream of the model is dropped. The expects on the texts of static diagnostics are left
-- out (Assembler.Static: these texts are valid), and the value that a caught panic carries is dropped
-- without a panic.
--
-- Not modelled: the other serde implementations and those of Debug, the payloads of the other
-- events, the progress of tools, the provider gate, and the parts that only call what is modelled
-- here.
pub mod Base
pub mod Text
pub mod Ids
pub mod Limits
pub mod Interaction
pub mod Control
pub mod Diagnostic
pub mod ModelError
pub mod Usage
pub mod PortCall
pub mod Event
pub mod Json
pub mod Message
pub mod Tools
pub mod Exchange
pub mod Batch
pub mod Driver
pub mod Response
pub mod Execution
pub mod History
pub mod Request
pub mod Options
pub mod Runner
pub mod Prompt
pub mod ToolSet
pub mod Assembler
pub mod ModelCall
pub mod Forward
