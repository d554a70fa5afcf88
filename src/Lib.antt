-- ===== src/Lib.antt =====
-- Crix: finding missing security checks in LLVM bitcode.
--
-- The program is a chain of passes over LLVM modules (analyzer/src/lib/Analyzer.cc). One finds the
-- callees of each call (CallGraph.cc); the others read them. One marks the
-- edges of each function's control-flow graph over which an error is returned or handled, and takes
-- for a security check each branch that splits such edges (SecurityChecks.cc). One counts, over all
-- modules, how often a source or use of data is checked, and then looks at every occurrence of a
-- checked one for a check (MissingChecks.cc). Both trace data with DataFlowAnalysis.cc.
--
-- Files:
--   Ir            what the passes ask LLVM, as fields of a record: LLVM is no part of the repository.
--                 A value, instruction, block or function is the number of its address, 0 is null.
--                 Ir/Kinds and Ir/Calls hold isConstant, getCalledFuncName and getArgByNo of
--                 analyzer/src/lib/Common.cc and the int8_t numbers of arguments.
--   Context       GlobalContext of analyzer/src/lib/Analyzer.h, as far as the passes read it.
--   Analyzer      IterativeModulePass::run of analyzer/src/lib/Analyzer.cc.
--                 Analyzer/Once is about passes that report no change.
--   CallGraph     analyzer/src/lib/CallGraph.cc, with what it asks LLVM about types: Hashes (funcHash,
--                 callHash, typeHash, typeIdxHash and hashIdxHash of analyzer/src/lib/Common.cc),
--                 Layers (nextLayerBaseType, funcSetIntersection, findCalleesWithMLTA), Confine (the
--                 typeConfine functions, escapeType, transitType), Graph (doInitialization, and the part
--                 of GlobalContext that is filled), Pass (doModulePass and the run over the modules),
--                 Matching (findCalleesWithType; MatchingLaws and MatchedCallees are about it).
--                 Narrowing, LayerRuns, LayerTotal, LayerBounds and Transits are about
--                 findCalleesWithMLTA; InitLaws, InitRun, PassLaws, PassRun, Runs and Totals about the
--                 run.
--   TypeInitializer  analyzer/src/lib/TypeInitializer.cc: the names of struct types, which typeHash reads.
--   Walk          the shape that the recursive walks with a set of tracked values share; Walk/Exact
--                 describes what such a walk leaves by its plan, and Walk/Steps by relations that the
--                 plan is proved to follow; Walk/Members reads a plan that is put together from lists.
--   Worklist      the shape that the breadth-first loops share; Worklist/Search is one that returns
--                 at the first find.
--   SecurityChecks  analyzer/src/lib/SecurityChecks.cc and its header: Flags (updateReturnFlag,
--                 updateHandleFlag, mergeFlag), Errno (isValueErrno, which
--                 ErrnoValues describes), MayReturn (mayReturnErr; MayReturnSteps describes what it
--                 looks for, MayReturnTotal is about its end),
--                 ErrHandle (checkErrHandle), SameVariables (findSameVariablesFrom), ValueFlow
--                 (checkErrValueFlow, checkErrReturn, inferErrBranch), Edges and Propagate (the
--                 recurMarkEdges functions, markEdgesToErrReturn, markAllEdgesErrFlag), Identify
--                 (identifySecurityChecks, addSecurityCheck, doModulePass).
--   DataFlow      analyzer/src/lib/DataFlowAnalysis.cc: Aliases (getAliasPointers), Reach
--                 (collectSuccReachBlocks, collectPredReachBlocks), Order (possibleUseStResult),
--                 InFunction (findInFuncSourceCV; InFunctionSteps
--                 describes its calls and marks), Sources (findSourceCV, findSourceCVAlias), Uses
--                 (findUses; UsesSteps describes its calls and uses), Backward (findSources, performBackwardAnalysis).
--   MissingChecks analyzer/src/lib/MissingChecks.cc and its header: Model (ModelSC, the counters,
--                 modelCheck, the add functions, inModeledCheckSet), Sources (findSourceCV;
--                 SourcesSteps describes its calls), Targets
--                 (identifyCheckedTargets, identifyIndirectTargets, countSrcUseChecks), Forward and Backward
--                 (isCheckedForward, isCheckedBackward; BackwardSteps, and ForwardSteps with ForwardLoop, describe
--                 their calls), Unchecks (countSrcUseUnchecks), Stages
--                 (doModulePass and its stages), Results (processResults; the comparison of a rating,
--                 a float, with its threshold is a parameter). Keeps, Tallies and Phases are about what the
--                 stages keep, TrackTotal, UnchecksTotal and RunTotal about their end.
--   PointerAnalysis  analyzer/src/lib/PointerAnalysis.cc: Pairs (collectPointers,
--                 getSourcePointer, detectAliasPointers), Pass (doModulePass, augmentMustAlias), with
--                 the alias analysis of LLVM as a parameter.
--   Config        the tables of analyzer/src/lib/Config.h.
--   Workflow      main of analyzer/src/lib/Analyzer.cc from the loading of the modules on, and
--                 LoadStaticData: how the passes follow each other under -sc and -mc, and what each
--                 leaves in the context for the next. Workflow/Steps is about single passes.
--   Base          shared helpers; Tests runs the theorems on a small program.
--
-- State is passed explicitly: a function that fills sets or maps through references returns them, and
-- a set or map of a class is a field of a record. A std::set or SmallPtrSet is a list without
-- repetitions, a map an association list or a function. An int of flags is a record of its bits, and
-- an unsigned counter keeps its wrap-around.
--
-- Loops and recursions take fuel, and `none` is a run without enough. For the marking of edges one
-- unit for each start and for each edge between the blocks is enough, for the walks over
-- blocks and values more units than blocks and values that they have not tracked. The layers of a
-- called value take as much as it is deep, and an initializer as much as it has nested operands.
-- For mayReturnErr one unit more than the instructions of a closed list of functions is enough, if it
-- exceeds the nesting of stored constant expressions. findSourceCV and the tracing of returned values
-- take any fuel with which they return.
--
-- Not modelled: the reading of bitcode, source lines and debug locations, and the printing of reports;
-- unrollLoops of the call graph, which is off by default and rewrites branches by LLVM's analyses of
-- loops and dominators. MissingChecks/Branches (findClosestBranch and collectAliasPointers) and
-- augmentMustAlias model code that nothing calls. std::hash is a parameter. An operand of composite
-- type in an initializer is a constant, and so a User. Argument numbers are below 128 where an int8_t
-- runs over them.
mod Base
mod Tests
pub mod Walk
pub mod Ir
pub mod Context
pub mod SecurityChecks
pub mod Workflow
pub mod Worklist
pub mod DataFlow
pub mod MissingChecks
pub mod Analyzer
pub mod Config
pub mod CallGraph
pub mod TypeInitializer
pub mod PointerAnalysis
