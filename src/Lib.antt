-- ===== src/Lib.antt =====
-- A model of the core of dotidx, an indexer of Polkadot chains, and what is proved of it.
--
-- The indexer reads blocks of a chain from sidecars and stores them in a database. `dixbatch` and the
-- batch workflow of `dixmgr` fill in the blocks that are missing, `dixlive` follows the head, and
-- `dixmgr` watches and restarts the services that these need. The files:
--
-- - Prelude: names of the libraries that are passed on, tests on numbers, lists, maps by strings.
-- - CircuitBreaker: cmd/dixmgr/circuitbreaker.go. `enter` and `settle` are the two critical sections
--   of `Call`, `call` is both; `record_failure`, `record_success`, `set_state` and `reset` are the
--   methods of these names; Manager holds `GetOrCreate`, `Get`, `ResetAll` and the statistics.
-- - Batch: cmd/dixmgr/workflow_batch.go. `group_into_continuous_batches`, `dispatch` for
--   `processBatchesConcurrently`, `batch_workflow` for `BatchWorkflow`, `batch_workflow_chain` for its
--   runs by Continue-As-New; Concurrency is the limit on running activities as a step relation.
-- - Ingest: cmd/dixbatch/dixbatch.go and dix/process.go. `start_workers` is the sender of
--   `startWorkers` over its ranges, `scan_range` one range, Worker what is done with a batch.
-- - ChainReader: dix/chainreader.go and dix/chainreader_fallback.go. The record of the interface,
--   `sidecar` over an HTTP client that is a parameter, and the reader over two readers.
-- - Live: cmd/dixlive/dixlive.go. `process_last_blocks` is a tick that nothing overlaps,
--   `attempt_reconnect` a reconnection.
-- - Metrics: dix/metrics.go. Buckets of latencies, percentiles and averages.
-- - Node: cmd/dixmgr/workflow_node.go, workflow_cluster.go and workflow_dependant.go. `step` is a
--   round of `NodeWorkflow`, Cluster counts the quorum, Dependant waits for other services.
-- - ProcessManager: cmd/dixmgr/process_manager_direct.go. `start`, `stop`, `kill`, `monitor_process` and the
--   timer of a restart, and the ring buffer of output lines.
-- - Alerts: cmd/dixmgr/alerting.go and alert_rules.go. `fire_alert`, `resolve_alert`, and sequences
--   of both; Rules is the engine that evaluates rules and fires their alerts, Defaults the rules that it
--   starts with and the CPU usage of activities_resources.go that they read, Gauges the gauges of alerts.
-- - Collector: cmd/dixmgr/metrics.go. `record_service_health` and `record_service_restart` over the states of
--   services, which the default rules of Alerts read.
-- - Infra: cmd/dixmgr/workflow_infrastructure.go and helpers.go. `infrastructure_workflow` is the list of
--   starts and waits of `InfrastructureWorkflow`; Plan is `FromMgrConfigToInfraInput`, Names the names of
--   signals and workflows. Its children are the workflows of Node and Node.Dependant.
-- - Orchestrator: dix/orchestrator.go. `watch` is `watchService`, Systemd its calls of systemd, Tree
--   `StartTree` and `StopTree` over the tree of services.
-- - Filter: dix/filter.go and dix/blocks.go. `event_process` is `EventProcess` over a JSON tree; Address
--   collects the addresses of extrinsics.
-- - Database: dix/database.go. `save` is `Save` with its transaction and the pool of connections,
--   Timestamp its fallback times, Partitions the months of `CreateTableBlocksPartitions`, Queries the
--   registry of named queries and the results stored for each month.
-- - HealthHistory: cmd/dixmgr/healthhistory.go. The tables as lists, with an operation for each method;
--   Queries reads them back, Purge is `PurgeOldData` over the columns of the schema.
-- - Cron: cmd/dixmgr/workflow_cron.go and activities_cron.go. `cron_workflow` is `CronWorkflow` over the
--   results of Database.Queries; Dixcron is cmd/dixcron/dixcron.go, which computes the same results.
-- - Activities: cmd/dixmgr/activities_batch.go, activities_healthcheck.go and activities_sync.go. A batch of
--   blocks is fetched by the sidecar of ChainReader and stored by `save` of Database.
-- - Rpc: dix/chainreader_rpc.go. `initialize`, `get_chain_head_id`, `fetch_block` and `fetch_block_range` are
--   the methods of the reader, over a node that is a parameter; Block builds a block of the decoded parts.
-- - DynamicConfig: cmd/dixmgr/dynamic_config.go. `set` and `get` over the keys, Server with the lock,
--   `Update` and the HTTP handlers, Saved the form that is written to files.
--
-- The workers of Ingest and the ticks of Live use the interface `ChainReader`; the sender's batches
-- are those that Batch.Grouping calls a batch.
--
-- Numbers of Go's `int` and `time.Duration` are natural numbers here: block numbers, counts, times
-- and durations in nanoseconds are not negative and far below 2 ^ 63. Sentinels -1 are `none`. An
-- error is `none` or `false`, since no caller looks at its text. The clock, Temporal's activities,
-- the network, the database and the operating system are arguments: their answers. Logs and the
-- Prometheus collector are left out. Two loops run on fuel: the ranges of the batch workflow, one
-- round for each block of the range and one more, and those of the sender, the distance to the end
-- and what the heads that are read later add to it; that this is enough is part of their results.
--
-- Not modelled: the other SQL of dix/database.go, the activities that call systemd, the readings of /proc,
-- the front end and the configuration files, which pass on what libraries and the system give. The
-- library substrate-api-rpc, which decodes blocks and events, is a parameter, and dix/address.go is
-- a copy from another project.
pub mod Activities
pub mod Alerts
pub mod Batch
pub mod ChainReader
pub mod CircuitBreaker
pub mod Collector
pub mod Cron
pub mod Database
pub mod DynamicConfig
pub mod Filter
pub mod HealthHistory
pub mod Infra
pub mod Ingest
pub mod Live
pub mod Metrics
pub mod Node
pub mod Orchestrator
pub mod Prelude
pub mod ProcessManager
pub mod Rpc
