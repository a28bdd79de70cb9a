-- ===== src/Scanner.antt =====
-- src/scanner: the rules over Solidity source, the opcodes of bytecode, and their scores.
pub mod Text
pub mod Patterns
pub mod Report
pub mod Rules
pub mod Found
pub mod Complete
pub mod Contract
pub mod Risk
pub mod Bytecode
pub mod Opcodes
mod Tests
