-- ===== src/SecurityChecks.antt =====
-- SecurityChecks.cc: which branches of a function check for an error.
pub mod Flags
pub mod Errno
pub mod ErrnoValues
pub mod MayReturn
pub mod MayReturnSteps
pub mod MayReturnLaws
pub mod MayReturnTotal
pub mod ErrHandle
pub mod SameVariables
pub mod ValueFlow
pub mod Edges
pub mod FlagLaws
pub mod MarkPreds
pub mod Marking
pub mod Propagate
pub mod Frames
pub mod ReturnFrames
pub mod Handled
pub mod EdgeCounts
pub mod Total
pub mod Identify
pub mod Identified
