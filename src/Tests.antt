-- ===== src/Tests.antt =====
-- Concrete runs of the models, and of the theorems about them.
mod History
mod Queue
mod Text
mod Releases
mod Topics
mod Json
mod Fields
mod Pool
mod Client
mod Cbor
mod Loop
mod Diff
mod Arena
mod Charts
mod Panel
mod Shown
