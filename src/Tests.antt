-- ===== src/Tests.antt =====
-- Concrete chains and queues, and the theorems at inputs that meet their hypotheses.
mod Instances
mod TableTests
mod ReplayTests
mod PiTests
mod SscTests
mod SsdTests
mod SsaTests
mod ShowTests
mod ServerTests
mod CliTests
mod ProcessTests
mod RaceTests
mod StartTests
mod HostTests
mod WireTests
mod SystemTests
mod StaticTests
