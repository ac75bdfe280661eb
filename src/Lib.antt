-- ===== src/Lib.antt =====
-- Wrenn: the control plane and the host agent of a service that runs capsules, micro virtual
-- machines of Cloud Hypervisor. This library models the Go program's own decisions: which network
-- slot a capsule gets, which volumes it may mount, which transitions its status makes, and which
-- names and identifiers are accepted, how a template is built from a recipe, and when the
-- connections of a capsule are drained.
--
-- The parts and how they interact. A client's request reaches the sandbox service
-- (pkg/service/sandbox.go), which validates its texts (pkg/validate), parses identifiers
-- (pkg/id), resolves volumes through the volume service (pkg/service/volume.go), claims them and
-- records the capsule in two tables (pkg/db/volumes.sql.go, pkg/db/sandboxes.sql.go), and hands
-- the rest to a goroutine that asks a host and then moves the row and publishes an event. A
-- consumer of these events (internal/api) moves rows too, and a monitor compares the tables with
-- what the hosts report and repairs them. The host is the one that a volume is on, or else the
-- choice of a scheduler (pkg/scheduler). A template is built by the instructions of a recipe
-- (internal/recipe), which the build service has a host agent run in a capsule. Before a pause
-- the host drains the connections that its proxy holds to the capsule
-- (pkg/sandbox/conntracker.go). On a host, the processes that boot capsules take network slots
-- from one directory (pkg/network/allocator.go).
--
-- Files, each with the child modules of its folder:
-- - Prelude: names of the libraries passed on, Boolean tests and lists over the native numbers,
--   decimal numerals, outcomes, and Go's strings as lists of code points with the functions of
--   package strings that the program calls (trimming, prefixes, cutting, case; spaces and case of
--   ASCII, and the other spaces of Unicode).
-- - Regexp: regular expressions with matching by derivatives, which is what the patterns of
--   pkg/validate mean. Groups equates the dashed-group pattern with a scan.
-- - Validate: pkg/validate. Each validator is a function of the same words (SafeName is
--   safe_name); an error keeps its cause without its text. A map is the list of its entries.
-- - Ids: pkg/id/id.go. Sixteen bytes are a list of numbers below 256; big.Int is a natural
--   number. The loop of UUIDToBase36 is base36_onto, with 25 rounds; the shortest bytes of a
--   number are found with one round more than the number, which is enough because each round
--   divides by 256. A slice out of range is the outcome panics.
-- - Slots: pkg/network/allocator.go. SlotAllocator is the record of its two maps; the directory
--   is Disk, and the failures of each system call are inputs, Faults. Host is a step relation of
--   several processes over one directory, in which a slot is contested once a process has
--   reserved it while another owned it.
-- - Volumes: the volumes table by primary key, one function for each statement of
--   pkg/db/volumes.sql.go, which runs as one atomic step. The state Db carries the time and the
--   fate of every call to come: it is answered, refused, or lost, which means that it ran and its
--   answer did not arrive. Service is pkg/service/volume.go, and Reserve the reservations of
--   pkg/service/sandbox.go (reserveVolumesForCreate is reserve_volumes_for_create).
-- - Capsules: the sandboxes table with its statements, and the events. Create and Change are the
--   calls of pkg/service/sandbox.go and the goroutines that end them (createInBackground is
--   create_in_background). Steps is the step relation of all of them in any order, in which a
--   destroy acts on whatever status it may have read before, and Edges, Lifecycle, Snapshots,
--   Begins and Ends say what each does to a row. World holds both tables; they share the calls of
--   the database. Consumer is the consumer of the event stream
--   (internal/api/sandbox_event_consumer.go), for which serviceEventToCanonical of
--   internal/api/server.go is service_event_to_canonical. Monitor is
--   internal/api/host_monitor.go, and Bulk the statements that it makes: checkHost is check_host,
--   whose stages are functions of their own, and the order in which Go goes through a map of
--   groups is an input.
-- - Scheduler: pkg/scheduler. The operations of float64 are a parameter, the record Floats; what
--   is stated of the scores holds for any operations whose comparison is asymmetric and whose
--   negation is transitive, as it is on numbers that are not NaN.
-- - Recipe: internal/recipe. Parsing of the instructions (step.go); Context and Expand are
--   context.go; Execute, Copying and Paths are executor.go, with path.Clean as clean. Words is a
--   reader of shell commands, by which Quoted and Execute.Copies say what a shell makes of the
--   commands. Maps are lists of entries in any order.
-- - Tracker: pkg/sandbox/conntracker.go. A method is cut into the sections that other goroutines
--   see as one step (Acquire is first_look, second_look and enter); Steps is the step relation of
--   any number of handlers and of callers of Drain, ForceClose and Reset, which counts the
--   resets. Invariant is its invariant.
-- - Team: pkg/service/team.go over the tables of teams, memberships, reserved slugs and API keys
--   (pkg/db/teams.sql.go). Calls has the members of a team, its name and its flag, Slugs the
--   creation of a team and the changes of its slug, with the transactions they make: an error in
--   one restores the tables. Owners is the step relation of the calls.
-- - Units: internal/units/size.go. The operations of float64 are the record Floats; IsExact has
--   the laws, all of them of whole numbers up to 2^53 and of rounding towards zero.
--
-- Bounds. The loops over references, slots and characters are structural. A destroy makes three
-- attempts and a promotion three, as in the code. The counter of the round robin counts modulo
-- 2^64 and is read as an int64: a negative index panics. Identifiers drawn at random, the answers
-- of hosts, of the scheduler, of the lookups of templates, teams and hosts are inputs, over which
-- every statement quantifies.
--
-- Not modelled. Between the statements of one call no other call runs, but for a destroy, whose
-- first reading is a step of its own: the calls and the goroutines are the steps. Reading calls
-- that change nothing, the metrics, timestamps other than those of the last change, of an attach
-- and of a start, guest_ip, waits and the texts of errors are left out. The status of a host and
-- the audit log, which the monitor also writes, the sandbox manager, the deletion of a team, the
-- services of hosts and builds, sessions and channels have no model yet; generated code, HTTP
-- glue, the Rust guest agent and the frontend will have none.
pub mod Prelude
pub mod Capsules
pub mod Ids
pub mod Recipe
pub mod Regexp
pub mod Scheduler
pub mod Slots
pub mod Team
pub mod Tracker
pub mod Units
pub mod Validate
pub mod Volumes
