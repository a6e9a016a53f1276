-- ===== src/Calls.antt =====
-- src/modules/calls: 1-to-1 voice and video calls. Children: the data (call.types.ts, call.repository.ts
-- and the table of prisma/schema.prisma), the shared steps and the handlers of call.service.ts.
pub mod Types
pub mod Machine
pub mod Finish
pub mod Service
pub mod Lifecycle
pub mod Refines
pub mod Handlers
pub mod OneCall
pub mod Final
pub mod Reach
pub mod Once
pub mod Race
pub mod Relay
mod Tests
