-- ===== src/Examples.antt =====
-- The theorems at work on concrete servers, sessions and filesystems.
mod EchoRuns
mod SubsystemRuns
mod SignalRuns
mod ContextRuns
mod ArrivalRuns
mod StreamRuns
mod IdentityRuns
mod HostKeyRuns
mod Values
mod ServerRuns
mod SessionRuns
mod ChainRuns
mod SftpRuns
mod AuthRuns
mod KeyRuns
mod ReadingRuns
mod PolicyRuns
