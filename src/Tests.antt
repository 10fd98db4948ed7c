-- ===== src/Tests.antt =====
-- The theorems at the samples.
mod Rulings
mod Executions
mod Parts
mod Agents
mod Records
mod Loop
mod Monitoring
