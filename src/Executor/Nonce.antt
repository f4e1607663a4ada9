-- ===== src/Executor/Nonce.antt =====
-- src/executor/nonce.rs: the local nonce counter. The chain's answer to a resync is a parameter.
use robinarb.Base.{ℕ, ◌+◌, ◌%◌, ◌^◌, Bool, true, false, Option, none, some}

pub record NonceManager : Type 0 where
  pub next : ℕ

-- The nonce, and the counter after `fetch_add`, which wraps.
unfoldable pub reserve : NonceManager → ℕ × NonceManager
reserve m = (m.next, record { next = (m.next + 1) % 2 ^ 64 })

-- `none` is a failed read of the transaction count; the flag says whether the call is `Ok`.
unfoldable pub resync : Option ℕ → NonceManager → NonceManager × Bool
resync none m = (m, false)
resync (some n) m = (record { next = n }, true)
