-- ===== src/Examples.antt =====
-- Tests on inputs of the repository's own test files, and the theorems at inputs that meet their
-- hypotheses, a module for each part.
mod Samples
mod Config
mod Saving
mod Page
mod Statistics
mod Pasting
mod Cards
mod Agent
mod Tabs
mod Setup
mod Foreground
mod Sessions
