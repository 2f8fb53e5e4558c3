-- ===== src/Kernel.antt =====
-- strategy/execution_kernel.py: how an execution result moves a trade, the protections of an entry,
-- and the orchestrator that submits each intent to the gateway once.
pub mod Transition
pub mod Orchestrator
