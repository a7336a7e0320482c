-- ===== src/Lib.antt =====
-- The Backrest operator: a Kubernetes operator that backs up persistent volume claims with restic.
--
-- The program's parts. Custom resources (api/v1alpha1) say what to back up and restore. An admission
-- webhook (internal/webhook/validation.go) refuses bad ones. A controller for each kind reconciles
-- them; the one for PVCBackup (internal/controller/pvcbackup_controller.go) takes the workloads
-- down, snapshots or mounts the claims, runs restic in a Job, polls it and brings the workloads
-- back. Backups and restores of the same claim exclude each other through the session check
-- (internal/controller/repo_busy.go). The scripts of the Jobs are built in
-- internal/controller/restic_job_script.go, and the plans of a Backrest host are kept in step by
-- internal/controller/host_sync.go. internal/filters says which objects are watched. internal/mcp is a
-- server through which a user runs the operator's tools, after Kubernetes has said who he is and
-- whether he may.
--
-- The files.
--   Prelude: bytes, association lists for Go's maps, integers with int32's wrap-around, decimals.
--   Api: the custom resources. Texts that the code compares with literals are data types.
--   Effects: what a controller does to the world. A call appends its request to a trace, and the
--     answer is what an environment says for the trace so far; the environment is a parameter of
--     every function, so that a statement for all environments covers every state of the cluster,
--     every failed call and every change that others make between two calls. It also holds the cron
--     parser and the JSON codec, which are other people's code. Logging leaves no request.
--   Shell: shellQuote and the scripts. Shell.Lexer is an independent reading of such a text by a
--     POSIX shell, with quotes, operators and everything that a shell would expand.
--   Filters, Webhook: the functions of these names. JSON decoding is a parameter.
--   Metrics: internal/metrics/metrics.go. Metrics.Registry has the series as functions of their
--     labels, and computes the registry after a trace from the observations in it.
--   Session: repo_busy.go; interruptBackup is in Restore.Run.
--   Backup: the PVCBackup controller. Spec reads the object; Schedule is scheduleDue; Quiesce is
--     quiesce, unquiesce, scaleWorkload, releaseQuiesce and the annotation; Jobs builds, names and
--     adopts the restic Jobs; Secrets mirrors secrets; Host is the plan on the Backrest host;
--     Outcomes is fail and failPrune; Poll is pollBackupJob, pollPruneJob and handleForceCancel; Run
--     is the run from the session check to the Job, with the deferred function; Reconcile is the
--     order in which Reconcile tries all of these. Reconcile is one function in Go; here each of its
--     blocks is a function that calls the next one.
--     Backup.Traces are the proofs about all the requests of a reconcile. Backup.Concurrent is a step
--     relation for the runs of several backups of one claim, interleaved in any order; a pc stands
--     for the place in Backup.Run that a run has reached. A backup has one run at a time there, and its
--     Job may outlive the run; restores and workloads are left out.
--   Effects.Keeps, Effects.Yields, Effects.Ends: what holds of every trace, of the results of an
--     action and of the traces it leaves, with a rule for each way to build an action.
--   Restore: the PVCRestore controller (internal/controller/pvcrestore_controller.go) and
--     interruptBackup. Quiesce is the annotation with the replicas, Claim the new claim, Run the way
--     from the session check to the Job, and Restore itself Reconcile. An object has its
--     resourceVersion, which is what a status update can conflict on.
--     Restore.Concurrent is a step relation for one backup and one restore of the same claim.
--   Mcp: internal/mcp. Auth is auth.go, Tools with its children is tools.go, Server is server.go.
--     Calls and World are what the server asks for and what answers. A tool's call of a Backrest host
--     is one request with any answer; Client has what such a call does.
--   Downloads: the SnapshotDownload controller
--     (internal/controller/snapshotdownload_controller.go).
--   Client: internal/backrest/client.go. Client itself changes a host's configuration; Posts is the
--     request that the calls are made of, Operations the calls on operations with WaitOperation, Links
--     the links to downloads, Mint is MintDownloadURL. A host is an interface; the controllers and the
--     tools ask for these calls by one request each.
--   Cluster: the BackrestCluster controller (internal/controller/cluster_controller.go). Objects are
--     the Kubernetes objects it writes, Image the reading of its image, Host the server, Agents the
--     agents' Deployments, Reconcile the order of all.
--   Sync: internal/controller/host_sync.go, and in Repositories and Plans the two controllers of
--     internal/controller/repository_plan_controller.go.
--   Logging: Truncate, RedactURL and the readers of the environment of internal/logging/logging.go.
--   Entry: the settings that cmd/operator/main.go and cmd/mcp/main.go read from the environment.
--   Examples and Tests: a small cluster, and the theorems at concrete inputs.
--
-- Bounds and fuel. Times are nanoseconds as natural numbers. The wait for a snapshot has 121 rounds:
-- 120 sleeps of five seconds reach its ten minutes, and one more round finds them passed. The wait
-- for a pod has 151 rounds of two seconds for its five minutes, and the wait of a tool for a download
-- of n seconds has n / 2 + 2 rounds of two seconds. WaitOperation sleeps two seconds in a round, so its
-- fuel comes from its timeout in the same way. These are enough where the clock goes on during a
-- sleep. The decimal printer has as many rounds as the number has units.
--
-- Not modelled: the HTTP requests of the Backrest host's client, the schemas of the MCP tools, the
-- logger's set-up, the registration of the controllers, the command lines and listeners of the
-- binaries, and the generated deep copies. Go visits a map in any order, and the model in the order of
-- insertion. Namespaces, names, filters and schedules are ASCII, as Kubernetes demands of the names.
pub mod Prelude
pub mod Shell
pub mod Api
pub mod Effects
pub mod Webhook
pub mod Filters
pub mod Metrics
pub mod Backup
pub mod Session
pub mod Restore
pub mod Mcp
pub mod Downloads
pub mod Client
pub mod Cluster
pub mod Sync
pub mod Logging
pub mod Entry
pub mod Examples
pub mod Tests
