-- ===== src/Lib.antt =====
-- Goalrail: the admission verifier, the lineage graph, the trusted local run, the managed block,
-- and the records that they read.
--
-- Goalrail decides whether a range of commits may be admitted. A collector freezes the range (the
-- governance at its base and at its head, the changed paths, the commits and their parents, the
-- lineage graph of the work unit), adapters observe provider state, and the verifier evaluates
-- that input with no other effect.
--
-- Before that a change is worked on in local runs. A run is prepared from a frozen WorkSpec with a
-- baseline of the worktree, started once with an adapter, and finished with the results of its
-- checks. Each call publishes its records in a state directory whose files are written once, and a
-- run ends with a terminal receipt. A question that the run leaves at a reserved path is retained
-- and blocks it.
--
-- The program's parts and the files that model them:
--
-- - internal/domain, the records of policies, declarations, lineage, packets and results: Domain
--   and its children. Domain.Artifacts holds the interface `Codec`, through which the verifier
--   calls the domain's validators and the canonical digests (JSON and SHA-256) and decodes
--   exception replicas: a parameter of every definition that uses it.
-- - internal/admission/graph.go and the input types: Admission.Types.
-- - internal/admission/evaluate.go: Admission.Paths (pathsCovered, subset, repositoryPath),
--   Admission.Policy (EvaluatePolicy, evaluatePath, ruleMatches), Admission.Authority
--   (resolveAuthority), Admission.Binding (verifyGraphBinding and the commit set),
--   Admission.Evidence (verifyPacketEvidence, missingEvidenceKinds), Admission.Ancestry
--   (ancestorWithinRange), Admission.Restoration (restorationFailure and its helpers),
--   Admission.Exception (authorizedException), Admission.Denial (denyMany, missingLineageReason)
--   and Admission.Verify (Verify and CanonicalResult).
-- - internal/admission/effective.go: Admission.Projections, Admission.Candidates and
--   Admission.Effective. internal/admission/completeness.go: Admission.Completeness.
-- - internal/domain/work_spec.go, validation.go and escalation.go: Domain.Specs (FreezeWorkSpec,
--   OpenFrozenWorkSpec over the interface `WorkSpecCodec`) and Domain.Identifiers.
-- - internal/localrun: LocalRun.Types (types.go), LocalRun.Store (store.go), LocalRun.Checks
--   (normalizeCheckResults), LocalRun.Delta (CompareWorktrees of git_observer.go),
--   LocalRun.Escalation (escalation.go), LocalRun.Validate (the validators of service.go),
--   LocalRun.Inspect (InspectRun, InspectPrepared), LocalRun.Receipt (buildReceipt,
--   failureReceipt), LocalRun.Prepare, LocalRun.Start (with captureEscalation) and LocalRun.Finish.
--   LocalRun.Action is the shape of a call: it takes the files and ends with a value or an error
--   and the files as they then are. LocalRun.Host is the interface of a service to JSON, SHA-256,
--   regular expressions and the adapter, and has one record for each call with what the clock, the
--   random source, git and the file system answer in it. LocalRun.Life is the sequence of calls.
-- - internal/lineage/graph.go: Lineage.Graph (Graph, readReplica, Resolve). The listing of work
--   units and events and the reading of a replica's file are parameters.
-- - internal/project/managed_block.go: Project.Block (planManagedBlock), which replaces Goalrail's
--   block in an owner's instruction file. A file is the list of its bytes.
-- - Base holds the shared helpers: text, paths, time, lists, sets of keys and sorting.
-- - A component's theorems stand in the files below it, named for what they show. Admission.Sample
--   and Admission.Claim hold test data, the modules named Tests, ClaimTests and RuleTests the runs
--   of it, and Admission.Opened a name that opens the verifier for them.
--
-- `Verify` is one function with early returns. Here each stage is a function that returns its own
-- denials and calls the next stage. The error of `Verify` is `none`.
--
-- A call of the local run is a chain of reads and writes, each of which may fail: the record of the
-- call says which keys the file system refuses. A call that fails leaves the files that it has
-- written, so a crash between two writes is a call whose next write is refused. A publication is
-- one step, since the source publishes by a hard link. Stored JSON is bytes of any type with a
-- codec for each record, whose law is that decoding gives back what was encoded. Calls that run at
-- the same time are the sequence of their publications in the order in which these take effect
-- (`Publications` of LocalRun.Store.Once), whichever calls they belong to.
--
-- How values are read. A Go string is a text of code points, whose order is that of its UTF-8
-- bytes; a named string type is `String`. A map that stands for a set is the list of its keys, each
-- once, and every such list is sorted before it leaves the verifier. `sort.Slice` is a stable
-- insertion sort, which is what Go runs on short slices. A time counts nanoseconds from Go's zero
-- time and carries its location, which `==` on a struct compares. A duration limit is the bit
-- pattern of an int64, which wraps. A rule's priority is a natural number: the policy's validator
-- refuses all others.
--
-- The walk over parents takes one unit of fuel for each commit that leaves the queue. Each commit
-- of the range and the descendant leave it at most once, so one more than the number of commits is
-- enough.
--
-- Not modelled: JSON and SHA-256, the domain's validators and normal forms, the collectors that
-- call git and GitHub, the local run's parsing of git's output, its one-time admission files and its
-- managed authority, the writes of the lineage store, the setup, review and release services, and
-- the command line.
pub mod Base
pub mod Domain
pub mod Admission
pub mod LocalRun
pub mod Lineage
pub mod Project
