-- ===== src/Lib.antt =====
-- The JuiceFS operator: a model of its controllers in the pure language, and what holds of it.
--
-- The operator watches four kinds of Kubernetes resources. A CacheGroup owns worker pods that share a
-- distributed cache; its controller brings them up to date a few at a time, lets new workers join in
-- batches and migrates the cache of workers that leave, guided by samples of their byte counters that
-- a second controller takes. A Sync owns a manager pod and worker pods that copy data once; its
-- controller drives it through phases. CronSync and WarmUp create Syncs and Jobs.
--
-- Files, with the code that they model:
--   Base, Base/*: names of the libraries passed on, Boolean tests, lists, dictionaries for Go maps,
--     texts as lists of bytes, integers and sorting.
--   Kube: the parts of a pod that the controllers read (pkg/utils/pod.go: IsPodReady).
--   Pods: parseWorkerStats, MustParseWorkerMountCmds, PodNotReadyReason and IsMountPointReady of
--     pkg/utils/pod.go; Pods/Placement: AddNodeNameNodeAffinity of the same file.
--   Version: comparison of image versions (pkg/utils/utils.go: CompareImageVersion); Version/Order.
--   Labels: values that are cut to the length that Kubernetes allows (pkg/utils/utils.go:
--     TruncateLabelValue).
--   CacheGroup: the resource (api/v1/cachegroup_types.go) and the constants (pkg/common/common.go).
--   CacheGroup/Calls: the calls that a handler makes, as a list with the error that ends it.
--   CacheGroup/Join: pkg/utils/worker.go (ShouldAddJoinOption, WorkerCounterIdle, CanAddWorker and
--     the rebalance delays); Join/Laws.
--   CacheGroup/Update: what syncWorkers of internal/controller/cachegroup_worker_lifecycle.go decides
--     for every worker (workerUpdateAction, maxUnavailable, the join batch); Update/Laws.
--   CacheGroup/Update/Restart: how a decision is carried out (syncWorker, smoothRestartWorker,
--     recordWorkerJoin, and the creation and deletion of workers in
--     internal/controller/cachegroup_controller.go); Restart/Effects, Restarted, Ends and Merged.
--   CacheGroup/Retire: removeRedundantWorkers and gracefulShutdownWorker, with the leaving form of a
--     worker (pkg/builder/cache_group_pod.go: UpdateWorkerDecommission, UpdateWorkerGroupWeight);
--     Retire/Laws and Retire/Begun.
--   CacheGroup/Sampling: nextWorkerStats and the sampling of one worker
--     (internal/controller/cachegroup_stats_controller.go); CacheGroup/Collecting: Reconcile and
--     sumBytes of the same file.
--   CacheGroup/GroupStatus: calculateStatus of internal/controller/cachegroup_controller.go;
--     GroupStatus/Batch.
--   CacheGroup/Expected: parseExpectState of internal/controller/cachegroup_controller.go with its
--     three ways, MergeCacheGroupWorkerTemplate of pkg/builder/cache_group_pod.go; Expected/Merged,
--     Replicas and Placed.
--   CacheGroup/Volumes, Volumes/Cleaning: volume claims, cleaning and HandleFinalizer of
--     internal/controller/cachegroup_controller.go, NewCleanCacheJob of pkg/builder/job.go;
--     Volumes/Laws.
--   CacheGroup/Reconcile: sync, and Reconcile/Group: Reconcile and recordWorkerReadiness of the same
--     file; Reconcile/Laws.
--   Scheduler: pkg/scheduler/scheduler_simulator.go; Scheduler/Laws.
--   Builder: pkg/utils/secret.go, pkg/utils/options.go and genMountOpts of
--     pkg/builder/cache_group_pod.go; Builder/Configs, Commands and CacheDirs: the volumes of secret
--     configs, the commands and the cache directories of the same file; Builder/Options, Mounted,
--     RoundTrip and Names. Builder/Worker with Worker/Parts: the worker pod (newBasicPod, genEnvs,
--     newWorker and what they call); Worker/Hash, MapOrder, Script, ReadBack and Promise, the last
--     of which makes the WorkerBuilder that CacheGroup/Update takes out of it.
--   Sync: the resource (api/v1/sync_types.go). Sync/Checks, Sync/Pods, Sync/Stats and Sync/Reconcile:
--     internal/controller/sync_controller.go, CalculateProgress of pkg/utils/sync.go; the theorems are
--     in Sync/Pods/Workers, Sync/Stats/Ends, Sync/Reconcile/Life, Phases and Steps.
--   Sync/Sinks, Sinks/Parse: ParseSyncSink of pkg/utils/sync.go; Sinks/Secret: NewSyncSecret of
--     pkg/builder/sync_secret.go; Sinks/Held, Sinks/Laws and Sinks/Files.
--   Sync/Command: the commands, environment and volumes of pkg/builder/sync_pod.go.
--   Sync/Affinity: TruncateSyncAffinityIfNeeded of pkg/utils/sync.go; Affinity/Laws. Sync/Template: the
--     manager and worker pods of pkg/builder/sync_pod.go, with Template/Script, Shared and Apart.
--   Sync/Logs: ParseLog, ParseSyncMetrics, FetchMetrics and GetMetricsPortWithOptions of
--     pkg/utils/sync.go.
--   CronSync: Reconcile and SyncHistory of internal/controller/cronsync_controller.go;
--     CronSync/History, CronSync/Start.
--   WarmUp: the resource (api/v1/warmup_types.go); WarmUp/Once, WarmUp/Cron: the handlers of
--     internal/controller/warmup_controller.go, with parts of pkg/utils/job.go and warmup.go; their
--     theorems are in Once/Laws and Cron/Laws. WarmUp/Resolve, Resolve/Laws: Reconcile of the same
--     file and its lookups. WarmUp/Progress, Progress/Printed and Progress/Log: the counters in the log
--     of a job (pkg/utils/warmup.go). WarmUp/MountInfo, MountInfo/Spared and Mounted: how the job
--     mounts the file system; WarmUp/Command: getWarmUpCommand; WarmUp/Jobs, Jobs/Parts and
--     Jobs/Stable: the job and the cron job (all pkg/builder/job.go).
--   Examples, Examples/*: tests, and the theorems at concrete inputs.
--
-- Conventions. Texts are taken to be ASCII: strings.TrimSpace is modelled on its white space, and the
-- wider one of Unicode is left out. Instants and durations are numbers of nanoseconds, and none is
-- negative. What the API server, a pod or another package answers is a record field or an argument,
-- so that a handler is a function from the resource and the answers to the calls that it makes and
-- the status that it writes. A loop that polls until a deadline takes the list of the answers to
-- its polls, which ends where the deadline has passed; it is a recursion on that list, so it needs
-- no fuel. The search for a free volume name (nextConfigVolumeName) takes fuel, one more than there
-- are names in use. Go's range over a map gives its entries in any order: the map is a list and the
-- theorems hold for every order of it. The counters of a sync are integers without the bounds of
-- int64. The update of the workers takes its pods from an interface (WorkerBuilder) that says which
-- pods join.
--
-- Not modelled: the panic of the worker builder on a claim template that is missing inside of
-- HandleFinalizer, whose workers are given, since the validation of the resource refuses that input;
-- parseBytes of pkg/utils/sync.go, which computes in floating point, start-up (cmd),
-- generated code. RFC3339 annotations are kept as the instants that they stand for: the operator alone
-- writes them, and the code panics on any other text.
pub mod Base
pub mod Builder
pub mod CacheGroup
pub mod CronSync
pub mod Examples
pub mod Kube
pub mod Labels
pub mod Pods
pub mod Scheduler
pub mod Sync
pub mod Version
pub mod WarmUp
