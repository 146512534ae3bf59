-- ===== src/Lib.antt =====
-- A model of nvsentinel-capi-remediator, which reads the faults that NVSentinel reports in workload
-- clusters and hands the Machines behind the faulty nodes to Cluster API for remediation; on request it
-- also replaces a Machine whose devices are faulty, once the devices are kept from being allocated.
--
-- The program and the files that model it:
--   * internal/signal/signal.go, the signal that every source is reduced to: Signal.
--   * internal/signal/condition, signals parsed out of node conditions: Conditions.
--   * internal/signal/extrr, signals read from ExternalRemediationRequests, and their answers: Extrr,
--     with Extrr/Answering and Extrr/Collected on answers and on what is collected.
--   * internal/decision/decision.go, the table from recommended actions to decisions: Decision, with
--     Decision/Choice on `Decide` and Decision/Overrides on `New`.
--   * internal/capi: Capi/Guard (guard.go), Capi/Coverage (coverage.go), Capi/Note (capi.go),
--     Capi/Actuator (remediate.go and release.go), each with a child for what is shown of it.
--   * internal/controller/mode.go: Controller/Mode.
--   * internal/controller/cluster_controller.go: Controller/State (configuration, observations,
--     texts), Controller/Waits (`heldForChecks`, `nextLook`, `forgetWaits`), Controller/Plan and
--     Controller/Remediate (`remediate`, its pure parts and the rest), Controller/Handle (`handle`),
--     Controller/Answers (`answer`, `releaseAnswered`), Controller/Release (`releaseRestarts`),
--     Controller/Memory (what is remembered between passes), Controller/Loop and
--     Controller/Reconcile (`Reconcile`, the loop over the signals and the rest).
--   * internal/quarantine/quarantine.go: Quarantine/Device, Quarantine/Try (rejections and other
--     errors), Quarantine/Request (`ParseRequest`, `Select`), Quarantine/Naming (`RuleName`,
--     `labelValue`); rules.go: Quarantine/Rules; locator.go: Quarantine/Locator. Quarantine/Client has
--     what they ask of the cluster and of the libraries (`Apis`, `Toolkit`), Quarantine/Steps their
--     sequencing. Quarantine/Adds, Quarantine/Confirmed and Quarantine/Reads are about what the calls
--     on rules add to the record of effects whatever the servers answer, Quarantine/Runs and
--     Quarantine/Leaves about what they return and add when the servers answer well.
--   * internal/controller/quarantine_controller.go: Controller/Replace, with Controller/Steps for how
--     its functions go on or end. Controller/Replace/Warrant says what each effect is to be warranted
--     by; Sides, Calls, Due and Order beside it show that it is; Passing, Leads, Started and Resumed
--     show that a request on which nothing fails is carried out.
--   * `requestBecamePending`, `clusterToRequest` and `replaceRequestChanged`, the watched changes that
--     wake the reconcilers: Controller/Watches.
--   * cmd/manager/main.go: Manager, what the flags make of the reconcilers.
--   * The libraries of Kubernetes and Cluster API: Objects lists the fields that the program uses and
--     has the library functions as parameters (`Library`).
--   * The sample cluster and the runs on it: Tests. Shared helpers: Common.
--   * The API servers: World. `Client` is a parameter of every definition that calls a server. Each
--     of its functions takes the server's state and returns an answer and a new state, any answer
--     and any state, so that errors and the writes of others between two calls are covered. What
--     the program itself writes, and the DeviceTaintRules that it reads, are recorded as a list of
--     `Effect`s, newest first. World/Emits, World/Yields, World/Sends, World/Adds and World/Ensures
--     are the statements about actions, each with the rules that carry it through a `do` block.
--
-- How the parts interact: a pass (`reconcile`) reads the Cluster, selects a mode by what the workload
-- cluster serves, collects signals, decides each by the table (`handle`), marks, escalates or skips
-- its Machine under the guards and the coverage (`remediate`), answers its request (`answer`),
-- releases the Machines whose restart is over (`release_restarts`), and updates the memory. A replace
-- request on a Machine (`replace`) is parsed and guarded, its devices are located and selected
-- (`devices`, `select`), each gets its rule, which is read back (`ensure`, `exists_rule`), and then
-- the Machine is deleted; a request picked up again goes by the rules that were made for it (`of`).
--
-- Conventions: a Go function that updates an object in place returns the object after it, also on an
-- error. A long Go function is split at its branches into functions whose names say which branch they
-- are; they call each other in the order of the source. Map keys of the reconciler's memory are
-- the text `namespace/name`. Times are nanoseconds as natural numbers. Strings are texts, except for
-- Event notes and the values of labels, which are cut by bytes and are lists of bytes. Sorts, which Go leaves open for equal
-- elements, are stable. A set of drivers is a list. `tries` is the number of attempts of `retry.DefaultBackoff`; it is any
-- number, and what is shown holds for each.
--
-- Not modelled: log lines, which change no state; locks, since a Cluster's passes never overlap;
-- the registration of watches (`watchRequests` is a call that may fail, `SetupWithManager` only
-- registers); of cmd/manager/main.go the parsing of the command line, the manager, its caches, metrics,
-- leader election and start-up, which are calls of libraries; the wording of the errors of
-- internal/decision.
pub mod Common
pub mod Signal
pub mod Decision
pub mod Objects
pub mod World
pub mod Capi
pub mod Conditions
pub mod Extrr
pub mod Quarantine
pub mod Controller
pub mod Manager
pub mod Tests
