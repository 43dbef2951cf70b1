-- ===== src/Examples.antt =====
-- Runs of the modelled code on concrete inputs.
mod Plans
mod Builds
mod Budgets
mod Cycles
mod Updates
mod Materials
mod Runs
mod Restarts
mod Goals
mod Shapes
