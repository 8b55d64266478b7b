-- ===== src/Lib.antt =====
-- GoblinDock deploys virtual machines to Proxmox. An API process serves the handlers of `app/api.py`
-- and writes one SQLite database; worker threads of the same process (`app/worker.py`) take the jobs
-- that the handlers queue and carry them out on Proxmox. The two meet in the rows of the database:
-- a job's status, a deployment's status and VM id, and the reservations of static addresses.
--
-- The parts, and the files that model them:
--   - Base (and its children): lists, tables with a primary key, responses of handlers, texts.
--   - Models: the rows of `app/models.py`, the database as one record `Db`, the commands that were
--     sent to Proxmox (`sent`), and the counter of `app/statebus.py` (`version`).
--   - Network.Pool: `app/network_pool.py`. Network.Allocate: `allocate_ip` of `app/api.py`.
--   - Accounts: `edit_user`, `delete_user`, `reset_user_password` of `app/api.py`, `current_user` and
--     `require_admin` of `app/deps.py`. Accounts.Login: `login`, its throttle and its lockout.
--     Accounts.Profile: new accounts, the own profile and password, and widget keys.
--   - Worker: of `app/worker.py`, the reconciliation of canceled and failed jobs and the retry of
--     pending cleanups (Worker.Reconcile), with the writes they share (Worker.Ownership), the teardown
--     of a VM (Worker.Teardown) and what Proxmox answers (Worker.Remote, with `probe_vm_presence` of
--     `app/proxmox.py`).
--   - Worker.Queue: `_claim_next_job`, `_execute`, `_finish_waiting_error`, `_timeout_waiting_job` and
--     `_recover_orphans` of `app/worker.py`. The code of a job's type is an argument of `execute`.
--   - Worker.Run: that code. Worker.Run.Deploy models `_run_deploy` with `_defer_for_guest_ip`,
--     Worker.Run.Rebuild `_run_rebuild`, `_run_configure` and `_run_image_sync`, Worker.Run.Destroy
--     `_run_destroy`, Worker.Run.Limits `effective_resource_limits`.
--   - Proxmox: of `app/proxmox.py`, the inventory of the cluster, `find_vm_node`, `_assert_vmid_free`,
--     `wait_task` and `wait_guest_ready`.
--   - Network.Context: `_network_ctx` of `app/api.py` and `read_only_network_ctx` of
--     `app/template_ops.py`.
--   - Values: secrets and variables, their handlers in `app/api.py` and `_secret_lookup_factory` of
--     `app/worker.py`.
--   - Lifecycle: the handlers of `app/api.py` and `app/operations.py` that destroy a VM, clean up its
--     local record and recover a deployment; Lifecycle.Jobs: those that cancel, dismiss and purge jobs.
--     Lifecycle.Queueing: `_deploy_transaction`, `_vm_rebuild_transaction`, `retry_configuration` and
--     the quotas. Lifecycle.Power: `vm_action`. Lifecycle.Names: `_auto_name`.
--     Lifecycle.Locks: `_deployment_operation_lock`.
--   - ImageUrl: `validate_image_url` of `app/api.py`, with URL reading and host resolution as parameters.
--   - Inventory: `InventoryCache` of `app/inventory.py`. Client: `client_ip` of `app/netutil.py`.
--
-- A table is a list of rows in the order of their insertion; `session.get` is `get`, a query with
-- `first()` is `first` or `latest`. A handler returns a `Response`: the new state, or the status and
-- the text of the exception it raises, whose transaction is not committed. Code that runs under a
-- lock, or inside one transaction, is one step; the quota of active jobs is checked on the jobs that its
-- query saw, since the retry of a configuration does not take the lock of the other handlers that queue
-- jobs. What a call to Proxmox answers is a parameter, and so
-- are the password hash and the reading and writing of addresses (`IpTexts`, with the law that a
-- written address reads back). Times are seconds, and one clock reading serves a call. Keys and
-- VM ids are never 0, so that a test of one for truth is a test for its presence.
--
-- One function runs on fuel, the search of `_auto_name`, with one number more than there are names:
-- each number that is passed over has a name of its own. Each other loop runs over a list or a range. A loop that polls
-- until its deadline runs over the list of what its rounds answer.
--
-- Not modelled: the checks of a recipe and its inputs and the building of execution plans, whose work is
-- done by the YAML, Jinja and encryption libraries, so that deploy, rebuild and the retry of a
-- configuration take what they answer; the texts of cloud-init and the Ansible run; the cache of base
-- disks; the requests of the Proxmox and SSH clients; the handlers of networks, images, templates and
-- connections; the web client, serialization, backups, migrations and seeds.
pub mod Base
pub mod Models
pub mod Network
pub mod Accounts
pub mod Values
pub mod Proxmox
pub mod Worker
pub mod Lifecycle
pub mod Inventory
pub mod Client
pub mod ImageUrl
