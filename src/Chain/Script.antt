-- ===== src/Chain/Script.antt =====
-- src/chain/script.ts: the script interpreter. Num has the integers on the stack, Opcode the opcode
-- table, Stack the opcodes that move items, Exec the others, Multisig the m-of-n check, Machine the
-- loop of `evalScript`. A stack is a list with its top first.
pub mod Num
pub mod Limits
pub mod Opcode
pub mod Stack
pub mod Multisig
pub mod Exec
pub mod Machine
pub mod Disasm
pub mod Progress
pub mod Bounds
pub mod Branches
pub mod Build
mod Tests
