-- ===== src/Base/Codes.antt =====
-- The C return codes of the engine's entry points, and its allocator.
use Prim.Native.Nat.{ℕ}
use mathlib.Core.Bool.{Bool}

-- A `c_int` that is -1 on failure: `err` is -1, and `ret n` is the value n.
pub data Ret : Type 0 where
  err : Ret
  ret : ℕ → Ret

-- libc's `malloc`, `calloc` and `realloc`, by the number of bytes asked for: whether the call succeeds.
pub record Mem : Type 0 where
  pub malloc_ok : ℕ → Bool
  pub calloc_ok : ℕ → Bool
  pub realloc_ok : ℕ → Bool
