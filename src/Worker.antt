-- ===== src/Worker.antt =====
-- app/worker.py: the background job runner. `Remote` is what Proxmox answers, `Ownership` writes and
-- drops deployment rows, `Teardown` destroys a half-built VM, `Reconcile` settles the deployment of
-- a job that was canceled or that failed, `Queue` claims, runs and ends jobs.
pub mod Remote
pub mod Ownership
pub mod Teardown
pub mod Reconcile
pub mod Queue
pub mod Run
pub mod Tests
