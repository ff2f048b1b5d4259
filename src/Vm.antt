-- ===== src/Vm.antt =====
-- src/polodb_core/vm: the bytecode of queries and updates, the machine that runs it, and the compiler.
pub mod Op
pub mod Label
pub mod Program
pub mod World
pub mod Machine
pub mod Cursors
pub mod Values
pub mod Calls
pub mod Arms
pub mod Execute
pub mod Durable
pub mod Steps
pub mod Codegen
mod Examples
