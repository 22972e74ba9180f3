-- ===== src/Tests.antt =====
-- Runs of the models at concrete inputs, and the theorems at inputs that meet their hypotheses.
mod Toy
mod Base64
mod Standard
mod Sealed
mod Records
mod Times
mod Written
mod ToyLaws
mod Opened
mod Vaults
mod Servers
mod Actions
mod Shares
mod Changes
mod Spans
mod Pinned
mod History
