-- ===== src/Tests.antt =====
-- The theorems at concrete inputs, and runs of the definitions.
mod PmmRuns
mod AtaIrqRuns
mod AsmRuns
mod RaceRuns
mod SpaceRuns
mod VmmRuns
mod AtaPollRuns
mod IdtRuns
mod LoaderRuns
mod KernelRuns
mod PicRuns
