-- ===== src/Tests.antt =====
-- Runs of the model at concrete inputs, and the theorems at inputs that meet their hypotheses.
mod Frames
mod Recordings
mod FlowTable
mod Accounts
mod AuditLog
mod Traffic
mod Findings
mod Datagrams
mod Stores
mod Evidence
mod Events
mod Payloads
