-- ===== src/Network/Retry/Decision.antt =====
-- `RetryPolicy.decide` of network/retry.py.
use crytpo_data.Shared.{◌<◌}
use crytpo_data.Network.Retry.{RetryPolicy}

-- What the policy's constructor checks.
pub record IsValid (p : RetryPolicy) : Type 0 where
  pub attempts : 0 < p.max_attempts
  pub base : 0 < p.base_ns
  pub cap : 0 < p.cap_ns
