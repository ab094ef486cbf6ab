-- ===== src/Lib.antt =====
-- srcDiffVisual turns a pair of revisions into a visualization of the moves between them. A web
-- process queues history runs in a SQLite database; a worker claims them, builds artifacts, and
-- reports how each run ended; a store of artifacts keeps what was built.
--
-- Common holds the shared names: Boolean tests, lists, text, dictionaries.
--
-- Runs models srcdiffvisual/runs/store.py and srcdiffvisual/runs/models.py. A database is the two
-- tables as lists (Runs.Types.Db). Runs/Schema has the constraints and the statements,
-- Runs/Store, Runs/Queue and Runs/Progress the methods of RunStore under their own names. A
-- method maps the database to its result, or the exception, and the database it leaves; a
-- transaction that raises is rolled back. Because each writing method holds one IMMEDIATE
-- transaction, the interleavings of the web process and the worker are the sequences of calls of
-- Runs/Calls; the read of the run that follows a transaction is taken directly after it. The
-- texts of uuid4 and of the clock are arguments; that a new id is fresh is the condition IsNewId
-- of a call. Python's Unicode predicates are the argument Unicode. The loop of claim_next runs on
-- fuel, one more than there are rows: each pass but the last takes a run off the queue. The
-- invariant is Runs/Invariant; Runs/Sound has the proofs for each method, Runs/Lifecycle,
-- Runs/Outcomes and Runs/Acquire what follows. An integer of 2^63 or more does not fit in a
-- column: a cursor or a history pair of that size raises OverflowError. That the sequence numbers
-- of a log stay below it is not checked.
--
-- Not modelled: the worker's endless loop with its signal handlers and file lock, the migration
-- of older databases, the foreign key and the primary key of run_events, the table's column
-- `kind`, which has one legal value, and the encoding of rows and records as JSON.
--
-- Runs/Events models srcdiffvisual/runs/events.py: the stream as a loop over rounds, each with
-- the databases that its two reads meet, since other processes write in between; Events/Pages and
-- Events/Feed relate a page to the log, Events/Delivery and Events/Return have the theorems. The
-- clock is a number of ticks, and the JSON text of an event is an argument.
--
-- Runs/Worker and Runs/Executor model srcdiffvisual/runs/worker.py. The queue worker's watch is a
-- recursion over the polls for which the process runs; what the process answers is data
-- (Worker.Process), and signals and removals are effects that are recorded. The executor is a
-- chain of calls in a small monad; what the tools and the workflow do is its argument Work, and
-- what other processes do before each call is a function. A SIGTERM is taken to arrive while the
-- tools run. The proofs are in Worker/Ending, Worker/Turn and Executor/Settles, on Runs/Endings.
--
-- Artifacts models srcdiffvisual/artifacts/lifecycle.py. Artifacts/Inventory has the inventory,
-- Artifacts/Retention plan_artifact_collection, with its two loops as recursions over the
-- eligible items; an instant is a number of microseconds, and a cutoff before the least
-- `datetime` raises. Artifacts/Retention/Collection has apply_artifact_collection: what the file
-- system, the run store and the digest of a plan answer are arguments, one answer for each call,
-- so that they may change while it runs. The proofs are in Choice (what a dictionary selects),
-- Sweep (the loops), Plans, Promises and Existence.
--
-- Srcdiff models the annotated XML. Srcdiff/Elements has ElementTree's elements as data, with
-- srcdiffvisual/core/namespaces.py and srcdiffvisual/core/units.py; Srcdiff/Renderer has
-- srcdiffvisual/workflow/_source_renderer.py, which renders both revisions of a unit at once, and
-- Srcdiff/Positions its lines and columns. Parsing the XML text belongs to ElementTree. The
-- proofs are in Positions, Renderer/Ranges, and Renderer/Texts, which also has the description
-- that the rendered text is compared with; those on the tree are in Builder/Kinds and
-- Builder/Hulls. Srcdiff/Attributes, Srcdiff/Tree and Srcdiff/Builder have the tree of
-- srcdiffvisual/annotated_srcdiff with srcdiffvisual/srcmove/attributes.py and
-- srcdiffvisual/srcdiff/position_spans.py; Srcdiff/PathLists has
-- srcdiffvisual/srcmove/_path_lists.py. Srcdiff/XmlSpans has srcdiffvisual/srcdiff/xml_spans.py,
-- expat's events being given; in Srcdiff/XmlSpans/Nested these come from nested markup, and a
-- recursion over it (XmlSpans/Siblings) is compared with the stack (XmlSpans/Stack). What
-- Python's int reads from a text is an argument there, and an AssertionError is `none`.
--
-- Srcmove models srcdiffvisual/srcmove. Common/Json has the values of json.loads as data, and
-- Srcmove/Checked what a function returns or raises. Srcmove/Classification, Srcmove/Paths,
-- Srcmove/Units and Srcmove/Results have srcdiffvisual/srcmove/srcmove_results.py, its regular
-- expression as a matcher of its own; Srcmove/Regions has srcdiffvisual/srcmove/move_regions.py,
-- Srcmove/Merge and Srcmove/Enrichment have srcdiffvisual/srcmove/move_result_enrichment.py.
-- Srcmove/Groups has group_move_paths_by_move_id of srcdiffvisual/srcmove/move_groups.py, and
-- Srcmove/Endpoints the check of one move in srcdiffvisual/srcmove/validate_results.py. The
-- proofs are in Classification/Nesting, Units/Unique, Results/Parsed, Merge/Producers,
-- Merge/Fields, Merge/Once, Enrichment/Sides, Endpoints/Matching, and Regions/Nodes, which
-- compares the regions with the tree of Srcdiff/Builder.
pub mod Common
pub mod Runs
pub mod Artifacts
pub mod Srcdiff
pub mod Srcmove
