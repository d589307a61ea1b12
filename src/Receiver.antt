-- ===== src/Receiver.antt =====
-- The receiver of a deployment, scripts/deploy-gcp.py.
pub mod Model
pub mod Asked
pub mod Hosts
pub mod Target
pub mod HostFiles
pub mod Infrastructure
pub mod Compose
pub mod Pins
pub mod Policies
pub mod Environments
pub mod Admission
pub mod Readiness
pub mod Rollback
pub mod Deploy
pub mod Failed
pub mod Receive
pub mod Order
mod Examples
mod PartExamples
