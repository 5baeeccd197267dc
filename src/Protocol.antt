-- ===== src/Protocol.antt =====
-- The vocabulary that worker and manager share: src/oumigo/protocol/states.py and messages.py.

pub data NodeState : Type 0 where
  registering initializing serving draining stopped failed lost : NodeState

pub data RunState : Type 0 where
  idle executing : RunState

pub data Transport : Type 0 where
  direct tunnel : Transport

pub data WorkerCommand : Type 0 where
  stop : WorkerCommand
