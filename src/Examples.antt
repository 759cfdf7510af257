-- ===== src/Examples.antt =====
-- The theorems at concrete inputs, and runs of the definitions: a table with the pairs `ant: 1`, which the
-- pipe 7 watches, and `bee: 2`.
mod Fixtures
mod KvsRuns
mod LockRuns
mod OperationRuns
mod ParserRuns
mod ClientRuns
mod DumpRuns
mod JobRuns
mod PipeRuns
mod ConnectionRuns
mod RequestRuns
mod ClientProgramRuns
mod FirstDeliveryRuns
mod DirectoryRuns
