-- ===== src/Tests.antt =====
-- Runs of the model, and the theorems at concrete inputs.
mod Parsing
mod Reading
mod Answering
mod Sessions
mod Tables
mod Consoles
mod Timers
mod Running
mod Lives
mod Starts
