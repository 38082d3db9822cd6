-- ===== src/Examples.antt =====
-- Tests of the definitions on concrete inputs, and the theorems applied at concrete inputs.
mod JsonTree
mod SessionTests
mod GatewayTests
mod SolverTests
mod CoordinatorTests
mod ConsensusTests
mod DraftTests
mod BackoffTests
mod BufferTests
mod AppTests
mod TurnTests
