-- ===== src/Prelude/Contexts.antt =====
-- A context.Context argument: nil, live, or ended with the cause that context.Cause reports.
use Prim.Native.Nat.{ℕ}

pub data Context : Type 0 where
  nil_context : Context
  live : Context
  ended : ℕ → Context
