-- ===== src/Gateway/Manager/Lifecycle/Refined.antt =====
-- The steps of the run manager of gateway/run_manager.go against the life of each run.
use kkode.Gateway.Manager.{Runs, Manager}
