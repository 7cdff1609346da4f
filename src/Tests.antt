-- ===== src/Tests.antt =====
-- Runs of the definitions and uses of the theorems at concrete inputs.
mod Enrollments
mod Agent
mod Requests
mod Mapping
mod Stores
mod Updates
mod Nodes
mod Flows
mod Lighthouses
mod Renewal
mod Coordinator
mod Reports
