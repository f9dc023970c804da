-- ===== src/Lib.antt =====
-- The control plane of a chutes miner, which runs the chutes of the network on the GPUs of a
-- miner's servers: how it decides which chute runs where, and what it does to its database, to
-- kubernetes and to the validators on the way.
--
-- The parts, and how they correspond to the code (paths from the repository's root):
--
-- Schema models the rows of the tables Chute, GPU, Server and Deployment of
-- src/chutes-common/chutes_common/schemas. Db is the database of four tables, with the ON DELETE
-- rules of the foreign keys as functions: delete_deployment sets the deployment_id of its GPUs to
-- null, delete_chute and delete_server cascade. Db.Release and Db.Integrity have their laws.
-- State adds the log of the calls to other systems, and Action is the monad of the handlers, with
-- exceptions: what a handler wrote before it raises stays.
--
-- Operator is K8sOperator.deploy_chute of src/chutes-miner/chutes_miner/api/k8s/operator.py with its
-- steps _verify_gpus, _verify_disk_space, _track_deployment, _update_deployment and
-- _clear_deployment. It waits twice where other tasks of the process run (for the disk space, and
-- while kubernetes creates the service and the job); what they do to the state is a parameter.
-- Operator.Named says which row it returns.
--
-- Gepetto is the class of that name of src/chutes-miner/chutes_miner/gepetto.py: undeploy and the
-- handlers of the events that remove or mark rows. Placement has its choices of a server and of a
-- deployment to remove, Preempt the plan of preempting_deploy, and Scaling preempting_deploy itself
-- and the loop of scale_chute, which call the other parts as the code does. The loop runs on fuel, a
-- number of rounds; the results say how many rounds are enough, and when none are. Launch has what
-- they share: the launch token, the deployment and its announcement. Upkeep has the handlers that
-- create and update chutes and the one for bounties, Job those that take on a job, and Rolling
-- rolling_update.
--
-- Cache is MonitoringRedisClient of src/chutes-common/chutes_common/redis.py: the health of each
-- cluster and the resources that its agent reported. Monitor has one round of each loop of
-- HealthChecker and MonitoringReconciler, and ClusterMonitor, of
-- src/chutes-monitor/chutes_monitor/cluster_monitor.py, and Monitor.Router the endpoints of
-- src/chutes-monitor/chutes_monitor/api/cluster/router.py. Monitor.Recovery has the requests and the
-- rounds as a step relation on the cache.
--
-- Ownership is what the tables promise about GPUs, as an allocator whose state is two functions;
-- Ownership.Refines sets the handlers and the sections of deploy_chute beside it. Gepetto.Along carries
-- a relation of tables through the handlers, for this and for Gepetto.Invariant.
--
-- ConfigMaps is the worker that keeps the chutes' code on the clusters, Preflight the test before
-- a deletion, and Removal what undeploy asks of kubernetes. All three are of
-- src/chutes-miner/chutes_miner/api/k8s/operator.py.
--
-- Selector is the filter of MultiClusterK8sOperator for resources in the cache, with label and field
-- selectors as texts.
--
-- Autoscale is Gepetto._autoscale, over scale_chute, and a pass of the activator.
--
-- Reconcile is Gepetto.reconcile, from its loop over the deployments to the tasks that it gathers,
-- and Reconcile.Refresh what it does to the chutes before; Inventory is what it reads and how it
-- judges a row.
-- Reconcile.Tracking carries properties of the sets through the loop.
--
-- Control is ControlPlaneClient of src/chutes-agent/chutes_agent/client.py, and AgentState and Agent are
-- ResourceMonitor of src/chutes-agent/chutes_agent/monitor.py with its endpoints: what an agent does
-- when it boots, is started or stopped, loses the control plane or cannot reach it.
-- Agent.Lifecycle has these as a relation of reachable states, Agent.Contact joins the agent to the
-- endpoints of the monitor, Agent.Events forwards deletions, and Agent.Watch is one watch.
--
-- Systems outside the repository are parameters, as records of functions: kubernetes and a new uuid
-- (Cluster), the validators, the preflight and the agents (Outside), launch configs, announcements,
-- the config maps and the random choice (Controller). Their answers depend on the whole state with its log, so that
-- a repeated question may have another answer. Sample and Systems are a small database and
-- concrete answers, on which the tests run.
--
-- Simplified: identifiers, hotkeys, versions and names are numbers, since they are only compared;
-- times are seconds; hourly costs and multipliers are whole numbers of a fixed small unit. A table
-- is a list of rows in a fixed order, and a sort is stable. Handlers run one after another, except for
-- the two waits of deploy_chute.
--
-- Not modelled: the manifests that the operator builds; the server API with
-- GraVal and TEE verification; the command line, the cache cleaner, the registry and the audit
-- exporter, which are mostly input and output; the older copies of gepetto.py under
-- ansible/k3s/tasks/migration/files.
pub mod Prelude
pub mod Schema
pub mod Db
pub mod State
pub mod Sample
pub mod Systems
pub mod Action
pub mod AgentState
pub mod Agent
pub mod Control
pub mod Gepetto
pub mod Placement
pub mod Preempt
pub mod Launch
pub mod Scaling
pub mod Upkeep
pub mod Job
pub mod Ownership
pub mod Autoscale
pub mod Rolling
pub mod Inventory
pub mod Reconcile
pub mod Cache
pub mod Monitor
pub mod Operator
pub mod Selector
pub mod Removal
pub mod Preflight
pub mod ConfigMaps
