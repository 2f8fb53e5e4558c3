-- ===== src/Gateway.antt =====
-- The execution gateways: execution/gateways.py and execution/gateway.py.
pub mod Payloads
pub mod Events
pub mod Exchange
pub mod Live
pub mod Protection
pub mod Backtrader
