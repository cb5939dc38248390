-- ===== src/Tests.antt =====
-- The theorems at concrete inputs.
mod Bench
mod OnGpio
mod OnProc
mod OnPolling
mod OnCapturer
mod OnPipes
mod OnTime
mod Network
mod Disk
mod OnWeb
mod OnAlarm
mod OnPortMapping
mod OnLogMsgs
mod OnPublicIp
