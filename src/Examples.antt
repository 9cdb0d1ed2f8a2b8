-- ===== src/Examples.antt =====
-- The theorems applied to concrete inputs.
mod Providers
mod Routing
mod Conversations
mod Commands
mod Agent
mod Channels
mod Memory
mod Cron
mod Media
mod Tools
