-- ===== src/Lib.antt =====
-- A verification library for the jetkvm command line program, which lets people and agents drive a
-- JetKVM device: screens are observed, and keys, pointer and power are operated, through a command
-- line, a terminal interface and an MCP server. It models the parts that decide whether an action
-- may be sent, what exactly is sent, and what may be said about it afterwards.
--
-- The parts, and how they interact. A configuration is validated, narrowed by a process, and
-- compiled to a policy. A request for a tool is judged by this policy over the static catalogue of
-- tools. An allowed operation that changes a device is registered in a durable ledger before
-- anything is sent; its stage then moves along the table of ValidateTransition, and a process
-- that starts after a crash recovers what the last one left in flight. Input actions are compiled
-- into a batch against the screen that they were chosen from, and executed under the exclusive
-- lease of one control generation, with a neutralization of the keys and buttons at the end. That
-- generation numbers the session that the control actor of the device opened; callers hold handles
-- of it, and the actor runs one command at a time for whoever holds the current one.
--
--   Domain      the classes of effects                          internal/domain/device.go
--   Operation   stages, patches, requests, the keyed digest     internal/operation/operation.go
--   Ledger      the table of operations and its calls           internal/store/store.go,
--                                                               internal/store/migrate.go
--   Identity    the pins of device identities                   internal/store/store.go
--   Input       frames, keys, batches, the lease, execution     internal/input/*.go
--   Control     the actor of a device, and their registry       internal/control/*.go
--   Video       the receiver of H.264 packets                   internal/video/depacketizer.go,
--                                                               internal/video/types.go
--   Config      validation and narrowing                        internal/config/*.go
--   Confirmation  proofs of a person's confirmation           internal/confirmation/confirmation.go
--   Inventory   the catalogue of tools                          internal/inventory/inventory.go
--   Policy      decisions and discovery                         internal/policy/policy.go
--
-- Operation.validate_transition, validate_patch and validate_request are ValidateTransition,
-- ValidatePatch and Request.Validate; Operation/Digest has NewDigester and NewRequest.
-- Ledger.begin, get, transition, recover_interrupted and purge_terminal_before are the methods of
-- Store of those names; Ledger/Table has the CHECK constraints of the operations table and its
-- statements, and Identity has PinIdentity and VerifyIdentity; Ledger/Service has the calls of
-- internal/operation/service.go. In Input, Protocol is protocol.go, Keys is keys.go, Actions is
-- actions.go, Lease is the state of lease.go, and Executor (with its child Run) is executor.go with
-- the neutralization and release of lease.go. Control has the data of control.go and the methods of
-- actorState; Control/Actor has the commands of actor.go (open_control, snapshot, execute_in,
-- reconnect, close_control and shutdown are open, snapshot, execute, reconnect, close and
-- shutdown), and Control/Registry has the methods of Registry. Video/Depacketizer has
-- NewDepacketizer, Reset, Push and orderedPackets, and Video/Assembly the loop of assemble.
-- Config.validate_config is Config.Validate with the validate methods of its parts, and
-- Config/Narrow has Config.Narrow. Confirmation.mint and verify_and_consume are Mint and
-- VerifyAndConsume, and consume is the store's. Policy/Compile has Compile, but for the hash of its
-- revision. Policy.evaluate and tools are Compiled.Evaluate and Compiled.Tools. A test module
-- beside a part runs it on concrete data.
--
-- State. The actor's state is the record that its goroutine owns; its channel makes each command
-- one step, and what the clock, the locker, the session factory and the session answer during it is
-- a record of answers, so that a theorem over answers holds for each of their behaviours. A session
-- is the number of the generation it was opened for. The ledger is a list of rows with the set of
-- operations whose lock this process holds; a call is one transaction, and a history is a list of
-- calls, with what the clock and the lock files answer as parts of a call. The manager of the lease
-- is a record, and each critical section of its mutex is a function on it; Input/Lease/Latch
-- interleaves them freely. A running batch is a session with a log of what it sent; every
-- interaction with the world takes a tick, and an environment says for each tick whether the
-- transport fails, what the clock shows, and whether another goroutine fences the manager. Every
-- loop of the source that is modelled ends with its list, but for that over an aggregated payload,
-- whose fuel is the number of its bytes: each turn takes three, and Video/Bounds shows that more
-- fuel changes nothing. The keepalive of a held key is a list of ticks that the timer gives before
-- the deadline.
--
-- Numbers. A generation counts the sessions of an actor, and does not wrap. Go's int and
-- time.Duration are integers without a bound, except in the scaling of coordinates and the sums of
-- durations of Input/Actions, which wrap as an int64 does; a uint64 or a time is a natural number, a
-- UUID is the
-- number of its sixteen bytes, a digest the number of its bytes. Bytes of frames and the big-endian
-- words of digests and pointers keep their wrap-around, as do the numbers and times of packets.
--
-- Parameters. What net/url, net and path/filepath answer is the Platform of Config. HMAC, base64
-- and JSON are parameters of Confirmation, of which a record names what is relied on. HMAC-SHA256
-- and the conversion of a string to its bytes are parameters of Operation/Digest, the second
-- injective where a theorem says so. SQLite is modelled as a table that keeps its CHECK constraints
-- and whose transactions are atomic; failures of SQL other than a broken constraint, and failures
-- of the file system other than of a lock, are left out.
--
-- Not modelled: the drivers, the command line, the terminal interface, the MCP server, the loading
-- of configuration files, the credentials, setup, onboarding, updates and the device's HTTP and
-- WebRTC clients, which are input and output; the video pipeline with the reading of parameter sets
-- and streams, which are further components of their own. Channels, contexts and goroutines of the
-- control actor stand behind its commands. A panic of the transport and the wording of wrapped
-- errors are left out as well.
pub mod Base
pub mod Domain
pub mod Video
pub mod Config
pub mod Confirmation
pub mod Control
pub mod Operation
pub mod Ledger
pub mod Identity
pub mod Input
pub mod Inventory
pub mod Policy
