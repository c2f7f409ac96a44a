-- ===== src/Lib.antt =====
-- CurveAdm, as a library of definitions and theorems.
--
-- CurveAdm deploys and operates Curve clusters. A user writes a topology (YAML); it is parsed to a
-- list of services, each with the configuration that it inherits, its variables replaced and its
-- items checked for their types. A command compares the topology with the one in use, checks it, and
-- makes a playbook: steps with the services that they concern. A playbook turns each step into tasks
-- and runs these at the same time; a task runs its steps on a host over ssh. The services become
-- the servers and pools of the cluster, which scaling out and migrating change.
--
-- The files and the code they are about:
--   Variables      pkg/variable/variables.go: the table of variables, Register, Get, Set, Build,
--                  Rendering. Its children: Scan (the regular expression `\${([^${}]+)}` as a scanner
--                  of characters, with Template, Source and Found about what it finds), Meaning and Soundness (what a variable means, and `resolve`),
--                  Rendering, Build.
--   Config         Config.Value: the values that viper decodes, and the conversions of
--                  internal/utils/common.go (All2Str, Atoa, Str2Int, Str2Bool, DeepCopy). ItemSet:
--                  internal/configure/common/item_set.go, with Built and Items, what it gives.
--   Topology       internal/configure/topology: DeployConfig (dc.go, context.go), Item (dc_item.go and
--                  the getters of dc_get.go), Layout (dc_get.go), Convert (NewDeployConfig,
--                  renderVariables, convert, ResolveHost, Build of dc.go), BuiltIn (variables.go), Merge
--                  and Parse (topology.go), Diff (diff.go).
--   Pool           internal/configure/pool.go: the servers and pools of a cluster.
--   Task           internal/task/task/task.go: the steps of a task.
--   Tasks          internal/tasks: the run of tasks with a bounded number of workers, the monitor.
--   Playbook       internal/playbook/playbook.go, and from factory.go the choice of one service
--                  for each host.
--   Command        cli/command/scale_out.go and migrate.go: the checks and the playbooks; with
--                  IsSameRole and FilterDeployConfigByRole of cli/cli/cli.go.
--   Checker        internal/task/task/checker: topology.go and common.go.
--   Hosts          internal/configure/hosts: the hosts that a user configures, and Hosts.Address,
--                  IsValidAddress of internal/utils/common.go.
--   Disks          internal/configure/disks: the disks, and Disks.Uri, their URI.
--   Display        internal/tui/service/status.go: the table of statuses. Groups is about the merged
--                  lines, Summary about the status of replicas together.
--   Storage        internal/storage: the rows (Storage), the statements of sql.go (Statements,
--                  DiskStatements, on Tables), the methods of storage.go (Operations, DiskCalls),
--                  the calls as data (Calls), the creation and the upgrade of the tables (Opening,
--                  Opened). Sound, Kept, KeptDisks and KeptCalls are about the
--                  invariant, View, Found, Models, Refinement and Reads about what is
--                  promised, Current about the current cluster.
--   Errno          the error codes of internal/errno/errno.go that these parts return.
--   Prelude        tests, lists, maps, results and texts that the parts share.
--   Tests          the theorems at concrete inputs.
--
-- A Go map is an association list; a `range` meets its entries in the list's order, and a theorem for
-- every list covers every order. A call that returns an error is a `Result`: besides `ok` and `err` it
-- may `panic` (a failed type assertion, an index out of range, a nil dereference) or be `exhausted`.
-- Code that changes an object takes the object and returns the changed one. An int is `ℤ`, with
-- the wrap-around of 64 bits written out (`int64`) where the copysets of services are summed; the other
-- sums are counts of services, hosts and pools. Atoi refuses what does not fit in 64 bits.
--
-- The only recursion that is not structural is `resolve`, which takes the depth of the stack as its
-- first argument and is `exhausted` when it is used up. A depth above the longest chain of references is
-- enough; a circle of references exhausts every depth.
--
-- The run of tasks is a relation: the main loop launches a task when a slot is free, a running task
-- finishes with an outcome that the monitor records, and a finished task releases its slot. A step of a
-- task, and what a step of a playbook does, is a function of a state that stays abstract.
--
-- Parameters stand for what is not in the repository: the YAML decoder, the hash of
-- mitchellh/hashstructure, the UUIDs of google/uuid, the outcomes of tasks, the machine with its
-- user and files, and SQLite: which statements it refuses, the time, its random texts, and LIKE. A
-- statement of sql.go is modelled by what SQL says of it on lists of rows, in the order of their
-- insertion; the types of the columns are those that the statements store.
--
-- Not modelled: the remote steps (shell, docker, ssh), the bodies of the tasks, the terminal
-- output and progress bars, the parsing of command lines, the installer, the playground, and the
-- configurations of clients and formatting.
pub mod Prelude
pub mod Variables
pub mod Errno
pub mod Config
pub mod Topology
pub mod Pool
pub mod Task
pub mod Tasks
pub mod Playbook
pub mod Command
pub mod Checker
pub mod Hosts
pub mod Disks
pub mod Display
pub mod Storage
pub mod Tests
