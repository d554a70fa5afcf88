-- ===== src/Tests.antt =====
-- A small program, and the theorems on it.
mod Sample
mod Security
mod Flow
mod Missing
mod Ends
mod Back
mod Aliases
mod Graphs
mod Types
mod Targets
mod Whole
mod Results
