-- ===== src/Tests.antt =====
-- Runs of the definitions, and the theorems at concrete inputs.
mod Net
mod Dns
mod Svcb
mod Vector
mod Text
mod Args
mod Csv
mod Hosts
mod Log
mod Sink
mod Hash
mod DeadLock
mod Env
mod Temp
mod Signal
mod Http
mod Trigger
mod Range
