-- ===== src/Tests.antt =====
-- Runs of the model on a small graph, and the theorems at inputs that meet their hypotheses.
mod Input
mod Loading
mod Memory
mod Readers
mod Policies
mod Buffer
mod Loop
mod Settings
mod Tools
mod Tiling
mod Products
