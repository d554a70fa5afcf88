-- ===== src/MissingChecks.antt =====
-- MissingChecks.cc: the model of a check, the counters, and the two stages of the pass.
pub mod Model
pub mod Results
pub mod ReportLaws
pub mod ResultsLaws
pub mod ModelLaws
pub mod Forward
pub mod ForwardLoop
pub mod ForwardSteps
pub mod ForwardLaws
pub mod ForwardTotal
pub mod Sources
pub mod SourcesSteps
pub mod SourcesPlan
pub mod SourcesLaws
pub mod Targets
pub mod TargetsLaws
pub mod Backward
pub mod Branches
pub mod BackwardSteps
pub mod BackwardLaws
pub mod BackwardTotal
pub mod Unchecks
pub mod Keeps
pub mod Tallies
pub mod UnchecksLaws
pub mod TrackTotal
pub mod UnchecksTotal
pub mod Stages
pub mod StagesLaws
pub mod Phases
pub mod RunTotal
