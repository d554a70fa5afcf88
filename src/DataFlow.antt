-- ===== src/DataFlow.antt =====
-- DataFlowAnalysis.cc: alias sets, reachable blocks, and the data-flow walks over values.
pub mod Aliases
pub mod Reach
pub mod ReachLaws
pub mod Order
pub mod OrderLaws
pub mod InFunction
pub mod InFunctionSteps
pub mod InFunctionFits
pub mod InFunctionPlan
pub mod InFunctionLaws
pub mod InFunctionTotal
pub mod Uses
pub mod UsesSteps
pub mod UsesAccess
pub mod UsesPlan
pub mod UsesLaws
pub mod UsesTotal
pub mod Sources
pub mod Backward
pub mod BackwardLaws
