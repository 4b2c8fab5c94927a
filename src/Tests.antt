-- ===== src/Tests.antt =====
-- Runs of the definitions on concrete inputs, and the theorems at inputs that meet their hypotheses.
mod Terminal
mod Transfer
mod Api
mod Room
mod Commands
mod Runs
mod Doors
mod LogView
mod Sessions
mod Lobby
mod Onboarding
mod Entrypoint
mod Bridge
mod Input
mod Form
mod Password
