-- ===== src/Tests.antt =====
-- Runs of the model on concrete inputs, with integers for floats and an association list for a
-- table.
mod Drawdowns
mod Inputs
mod Stores
mod Trades
mod Times
mod Downloads
mod Gateways
mod Feeds
mod Orders
