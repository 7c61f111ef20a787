-- ===== src/Tests.antt =====
-- Runs of the definitions on the inputs of the program's own tests, and its theorems at concrete
-- inputs.
mod CabRuns
mod CacheExamples
mod ObjectExamples
mod SourceExamples
mod RouteExamples
mod Instances
mod SymstoreExamples
mod SentryExamples
mod ServiceExamples
mod Sorts
mod SymstoreRuns
mod SystemExamples
mod Multiplexer
mod ServerExamples
