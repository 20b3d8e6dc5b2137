-- ===== src/Lib.antt =====
-- Colloq: conversations between two roles, checked, projected and run.
--
-- A conversation (src/lib.rs) is a graph of global states: a send, a choice, a cancellation, a
-- success or a failure. `validate` checks it, `project` gives each role its endpoint, and
-- `verify_trace` checks a recorded list of frames against it. A plan (src/plan.rs) holds the
-- endpoints and a dictionary of transitions. Two machines (src/runtime.rs), one per role, run
-- the endpoints: one emits an envelope, a codec writes it, a transport brings it, and the other
-- machine accepts it, or both observe a failure.
--
-- Files, by part of the program:
--   Conversation            the data model of src/lib.rs: `Conversation`, `GlobalState`
--   Validate                `validate` and its helpers; Validate/Reachability is
--                           `validate_reachability`; Validate/Spec says what a valid
--                           conversation is, and the files beside it relate the two
--   Project                 `Endpoint`, `EndpointState`, `project`; Project/Duality on the pair
--   Trace                   `Frame`, `verify_trace`; Trace/Steps is the step relation of a
--                           conversation, to which Trace/Walk and Trace/Correct relate it
--   Plan/Wire               `derive_wire_plan` of src/plan.rs; Plan/Wire/Table and Bounds on
--                           its result
--   Plan/Identity           identifiers and digests of src/plan.rs
--   Plan/Verify             `ColloqPlan::verify`; Plan/Distinct and Plan/Checked on what it
--                           accepts
--   Plan/Compile            `compile` and `PreparedPlan`; the files below it on when it succeeds
--                           and what the machines of its plans are
--   Runtime/Error           `RuntimeError` of src/runtime.rs
--   Machine                 `EndpointMachine`; Machine/Find, Sync, Exchange and Outcome on two
--                           machines that exchange envelopes, Refuses, Failure and Start on
--                           refusals, failures and the start, Local on a single machine
--   Codec                   `EnvelopeCodec`, `CompactWireCodec`; Codec/RoundTrip, Emitted and
--                           Delivery on what it writes and reads
--   Session                 `SessionPreface` and its verification
--   Fault                   `FaultInjectingTransport`; Fault/Once on how often it injects
--   Memory                  `MemoryTransport`; Memory/Order on the order of messages
--   Drive                   the client and the server of the generation, and their reports;
--                           Drive/Verified and what it uses on their traces,
--                           Drive/Halts and what it uses on the end of their loops
--   Node                    keys, tickets and the policy of src/node.rs
--   Jev                     bindings, decisions and the retries of src/jev.rs
--   Tests                   tests, and the theorems at a small conversation
--   Prelude                 what the others share: tests, results, lists, maps, orders, sets,
--                           sorting, text and hexadecimal digits
--
-- How state and operations correspond: a method with `&mut self` takes the machine and returns
-- the new one with its result; a method that fails has not changed its machine. An error is a
-- value of `Result`; a failed `expect` is the error `panic`, or `none` where the method has no
-- error. A `BTreeMap` is an association list, a `BTreeSet` a strictly increasing list. A JSON
-- value is a parameter `V`; the JSON library is the record `Serializer` of Codec, of which a
-- theorem assumes what it needs by name. It need not read back all that it writes: an optional
-- field that holds `null` is read as an empty one, deep values are refused and a float may lose
-- digits. So a theorem assumes that of the envelopes concerned alone. `sequence` counts modulo
-- `2 ^ 64`, as in a release build.
-- The identifiers of a wire plan are bounded by 65535, as in the source.
--
-- The loop of `validate_reachability` runs on fuel, one more than the number of edges: each
-- round takes one item from the queue, and each edge adds one item at most once.
-- The loops of the client and of the server run on fuel that the caller gives, and tell when it
-- has run out. A round of the client that goes on takes an envelope from the transport, and one
-- of the server counts a token, or selects `done`, which ends a conversation whose branches of
-- that name lead to a terminal state. So more fuel than the transport has envelopes, or two rounds
-- more than the limit of tokens, is enough.
--
-- SHA-256, the identifiers, keys and addresses of iroh, the numbers of JSON that are no integers,
-- the HTTP service of JEV and the transport under a driver are parameters.
--
-- Not modelled: the texts of messages, which no code reads; the transports over TCP, QUIC and
-- Iroh, and the files of keys and policies, which are input and output; the demonstrations,
-- which run a client and a server in two threads; the modules for graphs, deployment, the
-- draft exchange, benchmarks and the command line.
pub mod Prelude
pub mod Conversation
pub mod Validate
pub mod Project
pub mod Trace
pub mod Plan
pub mod Runtime
pub mod Drive
pub mod Jev
pub mod Machine
pub mod Codec
pub mod Fault
pub mod Session
pub mod Memory
pub mod Node
pub mod Tests
