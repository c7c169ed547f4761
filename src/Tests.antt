-- ===== src/Tests.antt =====
-- Runs of the modelled code on concrete values, at which the theorems apply.
mod Watching
mod Selling
mod PaperTrading
mod Prices
mod Rules
mod Exits
mod Chasing
mod Gating
mod Trading
mod Entering
mod Rising
