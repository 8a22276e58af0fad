-- ===== src/Lifecycle.antt =====
-- src/lifecycle.rs: the constants of the module. Its parts are the children: the request gate
-- (`Gate`), the shutdown coordinator (`Shutdown`), the state of one service with its leases
-- (`Service`), the stop attempt (`Attempt`), the task that runs it (`Task`), the idle monitor
-- (`Monitor`), and all of them together (`System`).
pub mod Gate
pub mod Shutdown
pub mod Service
pub mod Task
pub mod Monitor
pub mod System
mod Tests
use roused.Base.{ℕ}
use roused.Base.Duration.{from_millis, from_secs}

abbrev pub idle_scan_interval : ℕ
idle_scan_interval = from_millis 100

abbrev pub shutdown_poll_interval : ℕ
shutdown_poll_interval = from_millis 20

abbrev pub stop_check_timeout : ℕ
stop_check_timeout = from_secs 5

abbrev pub stop_check_retry : ℕ
stop_check_retry = from_secs 30

abbrev pub stop_command_timeout : ℕ
stop_command_timeout = from_secs 5

abbrev pub shutdown_drain_timeout : ℕ
shutdown_drain_timeout = from_secs 5
