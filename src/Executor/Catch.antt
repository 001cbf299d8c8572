-- ===== src/Executor/Catch.antt =====
-- What follows the failure of a state.
use state_graph.Exec.{Exec}
use state_graph.Graph.{Graph}
