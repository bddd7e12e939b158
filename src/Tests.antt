-- ===== src/Tests.antt =====
-- Runs of the model, and the theorems at inputs that meet their hypotheses.
mod Instances
mod FmtTests
mod TcpTests
mod PrintTests
mod ProgramTests
mod SystemTests
mod SocketTests
mod RunTests
mod UserTests
mod SeparateTests
