-- ===== src/PointerAnalysis.antt =====
-- PointerAnalysis.cc: the aliased pointers of a function. LLVM's alias analysis is a parameter.
pub mod Pairs
pub mod PairsLaws
pub mod Pass
