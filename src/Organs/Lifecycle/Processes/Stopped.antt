-- ===== src/Organs/Lifecycle/Processes/Stopped.antt =====
-- src/organs.cpp, src/supervisor.cpp: that `stop_all` leaves no process.
use chimera_ape.Organs.Lifecycle.{Organs}
