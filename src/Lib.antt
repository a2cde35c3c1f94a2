-- ===== src/Lib.antt =====
-- Lector, a terminal screen reader (README.md): a model of the parts that carry its own logic.
--
-- Prelude           the names the modules share: Boolean tests, lists and byte slices over the
--                   native numbers, with the slice operations of Rust that the program uses
-- Control           src/tmux_control.rs, the streaming parser of the tmux control protocol. Data has
--                   the types, Fields and Octal the fields of a record, Records `process_line`, and
--                   Parser the state machine with `push`, `finish` and `reset`. A method that changes
--                   the parser returns the new parser; the vector of events that it fills is the list
--                   that it returns. Below Parser stand the proofs, one module for what each proves.
-- Gateway           src/tmux_gateway.rs, the router that finds control streams within the output of a
--                   PTY. Router has the types and the operations that read no input, Iteration the loop
--                   of `push`, one definition for each branch, which calls Control.Parser. Lifecycle
--                   has the state machine of the events, and the other modules the proofs.
-- Clipboard         src/clipboard.rs. Ring is `Clipboard`, whose list has the oldest text first, Names
--                   the registers and providers, Base64 the OSC 52 sequences, and System is
--                   `SystemClipboard` over a platform that is a parameter.
-- Hierarchy         src/tmux_lifecycle.rs, which connection runs in a pane of which. Origins has the data,
--                   a `BTreeMap` as the list of its entries in order of the keys, and Connections the
--                   operations of `ConnectionHierarchy`.
-- Topology          src/tmux_model.rs, the sessions, windows and panes of a connection. Maps has `BTreeMap`,
--                   Text the fields and what std does on text, Data the types, Records the fields of an
--                   inventory's records, Inventory and Bindings what they change, Replace the whole
--                   transaction, Lexer the tokens of `bind-key` lines, Notifications the changes and
--                   Notify the arms of `apply_notification`, and Queries what others read. Coherence
--                   states the references between the maps, and below it are the proofs.
-- Scheduler         src/output_scheduler.rs, the queue in front of the physical terminal. Effects has the terminal
--                   events (types of src/terminal.rs) and their bytes, Markers the markers of synchronized
--                   output, State the types, Enqueue, Visual, EventQueue and Synchronization the calls of the
--                   application (Requests has them as steps), Activation what becomes active, and Completion, Writing and Drain are
--                   `drain_ready`, over a writer that is the list of the answers it will give. Order, Loops,
--                   Stream and Conservation follow the bytes, Delivery, Handing and Reporting the
--                   renders, Leading and Started the first transaction, and
--                   Capacity, Bounded and Runs the number of pending bytes.
-- Editor            src/line_editor.rs. Text has the state and the edits, History the history, and Input
--                   the bytes and escape sequences; the segmentation into graphemes is a parameter.
--                   Boundaries says what of it is relied on; Edits and Recall have the proofs.
--
-- The recursion of `collect_descendants` has the bound on the nesting depth as its fuel, which no valid
-- hierarchy exceeds. The loop over the ancestors in `insert` counts down to that bound.
-- The loop of the router's `push` has fuel for three rounds a byte, and the loop that looks at a byte
-- again never does so more than twice (Gateway.Rounds). An index that is out of range would give
-- `panicked`.
-- Bytes are numbers, and a theorem that needs them below 256 says so. `u64` and `usize` are 64 bits
-- wide; their checked operations are written out. The messages of errors are not modelled.
-- The event loop, rendering, the terminal engine, speech drivers and scripting are not modelled: they
-- are input and output, or bindings to code outside the repository.
pub mod Prelude
pub mod Control
pub mod Gateway
pub mod Clipboard
pub mod Hierarchy
pub mod Topology
pub mod Scheduler
pub mod Editor
mod Tests
