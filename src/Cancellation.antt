-- ===== src/Cancellation.antt =====
-- src/cancellation.rs: the cancellation token. Its clones share one atomic byte, and each operation
-- is one atomic step on that byte, so the calls of all threads are a sequence of steps.
pub mod Monotone
use Prim.Native.Nat.{bit_and, bit_or}
use evm_fork_cache.Prelude.{ℕ, Bool, not, List, [], ◌∷◌, ◌==◌}

-- `STARTED`
abbrev pub started_bit : ℕ
started_bit = 1

-- `CANCELLED`
abbrev pub cancelled_bit : ℕ
cancelled_bit = 2

-- `struct SimulationCancellationToken`: its `AtomicU8`
pub record SimulationCancellationToken : Type 0 where
  pub state : ℕ

-- `SimulationCancellationToken::new`
abbrev pub new_token : SimulationCancellationToken
new_token = record { state = 0 }

-- `SimulationCancellationToken::cancel`, a `fetch_or`
unfoldable pub cancel : SimulationCancellationToken → SimulationCancellationToken
cancel t = record t { state = bit_or t.state cancelled_bit }

-- `SimulationCancellationToken::mark_started`, a `fetch_or`
unfoldable pub mark_started : SimulationCancellationToken → SimulationCancellationToken
mark_started t = record t { state = bit_or t.state started_bit }

-- `SimulationCancellationToken::is_cancelled`
unfoldable pub is_cancelled : SimulationCancellationToken → Bool
is_cancelled t = not (bit_and t.state cancelled_bit == 0)

-- `SimulationCancellationToken::has_started`
unfoldable pub has_started : SimulationCancellationToken → Bool
has_started t = not (bit_and t.state started_bit == 0)

-- one call of any holder
pub data Call : Type 0 where
  cancels : Call
  starts : Call

unfoldable pub call : SimulationCancellationToken → Call → SimulationCancellationToken
call t cancels = cancel t
call t starts = mark_started t

-- the calls of every holder, in the order in which they take effect
unfoldable pub calls : SimulationCancellationToken → List Call → SimulationCancellationToken
calls t [] = t
calls t (c ∷ cs) = calls (call t c) cs
