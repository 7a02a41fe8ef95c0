-- ===== src/Tests.antt =====
-- The theorems at concrete inputs.
mod Data
mod Policies
mod Traffic
mod Detectors
mod Commands
mod Requests
mod Rules
mod Files
mod Redis
mod Remote
mod Loop
mod Quiet
mod Live
