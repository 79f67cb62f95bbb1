-- ===== src/Lib.antt =====
-- A verification library for proofload, a load generator that checks the correctness of what it loads.
--
-- A run of proofload takes a workload and a target. The workload generator (core/workload) gives every load
-- goroutine its own stream of operations; an arrival schedule (core/schedule) says when each is meant to
-- start; in a distributed run a coordinator (core/cluster) hands out worker slots, starts all workers at one
-- time and collects their reports; a nemesis (core/nemesis) injects faults meanwhile and heals them; at the
-- end a verifier (core/verify) reads every acknowledged write back and compares replicas. A provisioner
-- (core/provision) brings a cluster up for a run; the artifacts of a run are written by core/emit and its
-- time series is sent by core/export. Of the targets, the
-- Kafka one (targets/kafka) numbers its records so that a log can be checked. The runner (core/runner) drives
-- the connections and tallies the operations, and the metrics (core/metrics) keep their latencies.
--
-- Files and the code that they model:
--   Prelude.antt, Prelude/: shared names: tests, lists, integers, maps as association lists; counting the
--     keys of a map (Count), and the stable sort with the order of texts (Sort).
--   Machine.antt: Go's int64 and uint64 arithmetic, with its wrap-around.
--   Schedule.antt: core/schedule/scheduler.go (`new_open_loop`, `offset_for`, `next`), ramp.go (`new_ramp`,
--     `ops_in_step`, `offset_for_index`, `linear_ramp`), poisson.go (`next_poisson`), wait.go (`wait_until`).
--     Exact, Locate, Ramps, Arrivals and Linear hold the proofs on them.
--   Workload.antt: core/workload/generator.go (`new`, `partition`, `generator`, `next`, `pick_op`),
--     keydist.go (`new_key_gen`, `next_key`), value.go (`value`). Accepted, Partition, Mix, Keys, Sequence,
--     Ownership and Payload hold the proofs.
--   Cluster.antt: core/cluster/protocol.go, coordinator.go (`new_coordinator`, `max_wait_of`), handlers.go
--     (`register`, `handle_join`, `poll_join`, `record_submit`, `handle_submit`, `result`) and worker.go
--     (`normalize_url`). Slots, Barrier, Requests, Complete and Address hold the proofs.
--   Verify.antt: core/verify and the report of core/domain/verify.go: Verify/Checksum.antt, Verify/Log.antt
--     (`read_log`) and Verify/Reconcile.antt (`read_back`, `converge_key`, `check_convergence`, `reconcile`),
--     with their proofs below them. Verify/History.antt: history.go and historyio.go (`observe`,
--     `read_history`, `keys`); Verify/Register.antt: porcupine.go (`register_ops`, `check_register`);
--     Verify/Writer.antt: logwriter.go and the writer of historyio.go (`record_line`, `close`), with Flushed;
--     Verify/Elle.antt: elle.go (`write_elle_edn`, `parse_elle_output`).
--   Nemesis.antt: core/nemesis/scheduler.go (`plan`, `pick`, `window`, `execute`, `heal_all`, `run`), rand.go
--     (`next_random`, `random_below`), controller.go (`build_args`). Target, Order, Unroll and Healed hold
--     the proofs.
--   Kafka.antt: targets/kafka/kafkadriver/record.go (`record_from`, `batch_record_at`, `encode_seq`,
--     `decode_seq`, `seq_from_headers`). Header and Batch hold the proofs. Kafka/Analysis.antt: verify.go
--     (`drain_topic`, `analyze_log`), with Tally and Ordering. Kafka/Settings.antt: config.go, params.go and
--     driver.go (`resolve`, `client_opts`, `connect`), with Durable.
--   Runner.antt: core/runner/runner.go (`validate`, `connect_all`, `run`) and worker.go (`worker`, `observe`,
--     `report`). Connections, Tallies and Means hold the proofs.
--   Metrics.antt: core/metrics/recorder.go (`collect`, `snapshot`, `merge`), local.go (`record_op`),
--     interval.go (`take_interval`), codec.go (`encode`, `decode`) and hlog.go (`write_hlog`, in Hlog), over the
--     record `Histograms` of the HdrHistogram library's operations. Sinks, Totals, Intervals, Intervals/Calls and Codec
--     hold the proofs.
--   Targets.antt, Targets/: what the drivers of the other targets plan for an operation:
--     targets/postgresql/pgdriver/sql.go (Postgres), targets/clickhouse/clickhousedriver/sql.go (Clickhouse),
--     targets/cassandra/cassandradriver/cql.go (Cassandra) and targets/redis/redisdriver/cmd.go (Redis), with
--     the proof in Agreement.
--   Config.antt: core/config/target.go (`map_target`) and workload.go (`map_workload`); Config/Resolve.antt:
--     resolve.go (`resolve_settings`, `resolve`), over the record `Koanf` of that library's operations, with the
--     proof in Precedence.
--   Cli.antt: core/cli/testtype.go (`resolve_test_type`, `build_scheduler`), with a proof in Paced.
--     Cli/Distributed.antt: distributed.go (`worker_rate`, `worker_overrides`, `merge_results`), with Rates and
--     Merge. Cli/Verification.antt: verify.go (`new_verification`, `committed_write`, `run`), with Committed.
--     Cli/Faults.antt: faults.go (`load_fault_schedule`, `begin`, `stop`), with Lifecycle. Cli/Run.antt: run.go
--     (`overrides`, `ensure_endpoints`, `drive`, `do_run`), with Cleanup.
--   Snapshots.antt: core/domain/metrics.go. Emit.antt: core/emit/atomic.go (`write_atomic`), with the proofs in
--     Atomic and Visible; Emit/Store.antt: layout.go and store.go; Emit/Timeseries.antt: timeseries.go.
--   Export.antt: core/export/export.go (`new`, `post_body`), with the exporters of Influx (influx.go) and
--     Pushgateway (pushgateway.go), what they post (Request), and the proofs in Tags, Reader, Latest and Quoted.
--   Registry.antt: core/driver/registry.go and the registry of core/provision/provisioner.go, with Names.
--   Provision.antt: core/domain/cluster.go and what the backends share. Provision/Kubernetes.antt: core/provision/k8s
--     (`build_model`, `nodes`, `nodes_from_pods`), with Pods. Provision/Compose.antt: core/provision/compose
--     (`build_project`, `resolve_port`, `parse_ps`, `nodes_from_ps`), with Services and Ports; its children
--     Waiting (docker.go), Bundle (bundle.go) and Provisioner (compose.go). Either has its hooks.go in Hooks. Provision/Text.antt: numbers in texts.
--   Each component has a module Examples with concrete runs.
--
-- Concurrency: a counter that the code claims atomically, and a handler that holds the mutex, is one step, so
-- an interleaving is a sequence of calls or requests and the theorems quantify over all of them. A closed
-- channel is a Boolean of the state.
--
-- Arguments for what is outside: the clock's readings, the draws of math/rand, the stream of payload words,
-- what a driver answers to a read and to each poll of a key's replicas, what the fault script answers, the
-- decoded body of a request, the decoded files of a configuration and the parse of a duration's text; which
-- calls of the operating system succeed, what docker, kubectl and an HTTP server answer, the text of a
-- float64, and the encoders and decoders of JSON and Parquet. Go leaves the order of a map's iteration
-- open; such a loop runs over a list of entries in any order.
--
-- Bounds and fuel: numbers of type int64, int and time.Duration are integers with the wrap-around of
-- Machine.antt, and a theorem that needs a value in range says so. The binary search has the distance of its
-- bounds as fuel, which suffices as each round halves it; the unrolling of a repeated fault has fuel for the
-- window and one repeat in nanoseconds, as each round advances by at least one.
--
-- Not modelled: the HTTP of the cluster, JSON, YAML and SQL texts, the processes of docker and kubectl and the
-- templates that are rendered for them, the target clients and the set-up of their schemas; the checkers
-- Porcupine and Elle, whose answers are arguments; the percentiles, which are floats; the report and warehouse
-- parts, and of the command line the parsing of flags, the interval ticker
-- and the printing.
pub mod Prelude
pub mod Machine
pub mod Schedule
pub mod Workload
pub mod Cluster
pub mod Verify
pub mod Nemesis
pub mod Runner
pub mod Kafka
pub mod Metrics
pub mod Targets
pub mod Config
pub mod Cli
pub mod Snapshots
pub mod Export
pub mod Emit
pub mod Registry
pub mod Provision
