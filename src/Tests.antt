-- ===== src/Tests.antt =====
-- Concrete runs over the rationals: the properties at inputs that meet their conditions, and tests.
mod Samples
mod AllocatorRuns
mod LpRuns
mod ModelRuns
mod DecisionRuns
mod FeeRuns
mod IncomeRuns
mod HourRuns
