-- ===== src/Lib.antt =====
-- capagent decides whether a Linux host can meet a container deployment requirement. Probes observe the
-- host, evaluators turn observations into evidence about capabilities, Resolve settles the evidence on
-- each capability, and a requirement document is evaluated over the settled capabilities of each
-- deployment candidate. This library models the part that decides.
--
--   Base          helpers: Boolean tests, lists, strings as lists of bytes, counts of strings
--   Model         internal/model: state.go, evaluation.go, evidence.go, capability.go, fact.go, target.go
--                 and context.go (Identity, with Ranges about its subordinate ranges and Execution about
--                 its execution identity)
--   Graph         Kahn's algorithm, as topological of internal/capability/graph.go and kahnTopoSort of
--                 internal/probe/registry.go share it: the rounds (Kahn), what they keep and return (Maps,
--                 Rounds, Order, Result), the sorting of strings (Sorting, Unique), and the place of a
--                 node in an order (Position)
--   Requirement   internal/requirement: logic.go and state.go (Logic), evaluate.go (Node for Node and
--                 Validate, Predicate for indexCandidate and predicate, Evaluate for Evaluate and
--                 evaluateNode). Tree is the specification of a document; Accepting and Active are
--                 about single steps of validateNode, Fuel about its fuel; Soundness, Completeness,
--                 Meaning, Backing, Knowledge and Kleene hold the theorems, Tests the tests
--   Capability    internal/capability/resolver.go (Resolver); Levels is about its rankings, Selection
--                 and Choice about its two loops, InOrder about its sorting, Joint, Resolution and
--                 Validity about the whole; topological of internal/capability/graph.go (Topological),
--                 with GraphBuild about the maps that it builds, GraphOrder about its result and
--                 GraphKeys about map order
--   Dataset       ValidateDataset of internal/capability/graph.go (Index and Check). Steps, Observed,
--                 Accepted and Edges are about its loops, Sound about the whole
--   Evaluation    internal/capability/registry.go: NewRegistry (Registry, with Order about it) and
--                 Evaluate (Evaluate). Matched and Loop are about its turns and its loop, Candidate about
--                 the checks of indexCandidate, Answers and Guarantee about the whole
--   Host          internal/host/mapping_helpers.go: ParseMappingCapabilities (MappingCapabilities), with
--                 RoundTrip about the attributes of the kernel
--   Platform      internal/platform: readBounded of bounded_io.go (Reading), with Bounds about its end and
--                 its limit and Exact about the data; ValidateSubpath of path.go (Subpath), with Below
--                 about it; the walk of memory_path.go (MemoryPath) and the in-memory readers of reader.go
--                 and scoped_reader.go over it (MemoryReader). Path models what these take of strings and
--                 path/filepath; Split and Parts state its laws, Within, Confined and Found are about
--                 where a walk stands, WalkEnds about its end, Inside about the reads
--   Config        internal/config/engine.go: MergeEngine (Merge), with Marks and Layers about the lists
--   Probe         internal/probe/registry.go: kahnTopoSort (Sort), compilePlan (Execution), Register,
--                 Resolve and the reads (Registry). Samples is a registry for tests; Tables, Plan and
--                 Resolve are about the plan, Invariant and Machine about sequences of calls
--   Orchestrator  internal/probe/orchestrator.go: the results of runs (Outcome), the scheduler's state
--                 with recordFinal and cascadeSkipLocked (Scheduler), and Run as steps of its workers
--                 (Machine). Plan, Sound and Invariant state what holds in between; Stack, Cascade,
--                 Release, Success, Failure, Settling, Moves, Reached and Start prove it; Workers is
--                 about the steps of single workers, and Safety, Once and Progress draw the
--                 conclusions. Compile, CompileNodes and Published are about the plans that Resolve
--                 compiles, and Resolved about Run over them
--
-- Strings are lists of bytes. A string type with canonical values is a data type with a constructor for
-- each, and `other` for every other string. Times are nanoseconds since the first one that a time.Time
-- can hold, and its zero value is one of them. Errors and messages are constructors with the values that
-- the code formats into the text; the wording is left out. A map whose keys are each stored once is a
-- list with a lookup.
--
-- A requirement document is a heap of nodes linked by pointers, so that shared nodes, nil pointers and
-- cycles are possible as in the code. validateNode and evaluateNode recur on fuel of 33, one more than
-- MaxDepth: a call at depth 33 is refused before it recurs. validateNode has an error of its own for
-- spent fuel, which no document leads to. A panic is a missing result, as is spent fuel in evaluateNode:
-- of a nil pointer in evaluateNode, and of an index of -1 in weaker.
--
-- A probe registry is a record of its fields, and a call returns the registry after it. A probe stands for
-- the values of its ID and Dependencies methods. The heap of kahnTopoSort is the list of its entries by
-- rising order: container/heap pops the least, and the orders of distinct probes are distinct.
--
-- topological takes a Go map as its keys, in any order, and the value at each. The loops of topological
-- and kahnTopoSort over the ready nodes run on fuel for the number of nodes. The theorems about their
-- results rest on a lemma that no node is ready when the fuel is spent, since each round puts another node
-- in order.
--
-- The orchestrator is a relation between states: a step is one access of one worker to what the workers
-- share, the end of the context, or the waking of the caller, in any order. Between the critical section
-- of recordFinal and its additions and pushes other workers may step. The queue's lock makes push, close
-- and each turn of pop one step. A worker in cond.Wait holds the number of Broadcasts before its Wait,
-- and returns when there have been more and only then, as sync.Cond promises. The Run of a probe returns
-- any observation and any error. The int32 counter of final probes and the count of a cascade wrap; the
-- theorems about Run are about fewer than 2^31 probes, as the code assumes, and about plans whose IDs,
-- dependencies and dependents agree and which have no cycle. cascadeSkipLocked runs on fuel for the
-- seeds and all edges; a lemma shows that its stack is empty at the end.
--
-- A read of readBounded depends on the turn, the bytes read before and the size of the buffer; the loop
-- has fuel for nine turns per byte of the limit, since at most eight retries come between two bytes.
--
-- A Unix path is its bytes, and Clean works on the parts between slashes. The walk of memory_path.go runs
-- on fuel for its turns: each takes a part of the path, or follows one of at most 16 links, which puts no
-- more parts in front than its target has bytes, and one. Of a file's mode only the type is modelled, and
-- of the contexts whether they have ended when they are asked.
--
-- ValidateDataset takes the order in which a range visits the keys of a Go map as a parameter: any
-- rearrangement of the keys.
--
-- Not modelled: probes over the file system and the podman command, the readers over descriptors, Stat,
-- ReadDir and StatFS of the in-memory readers, the locks of the probe registry, the evaluators of single
-- capabilities, the parsing of host facts other than file capabilities and of configuration files, the
-- command line and reports.
pub mod Base
pub mod Model
pub mod Graph
pub mod Requirement
pub mod Capability
pub mod Dataset
pub mod Evaluation
pub mod Host
pub mod Platform
pub mod Config
pub mod Probe
pub mod Orchestrator
