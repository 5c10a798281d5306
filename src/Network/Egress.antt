-- ===== src/Network/Egress.antt =====
-- `EgressConfig` of config/models.py, the fields that assignment and health read.
use crytpo_data.Shared.{ℕ, String}

pub record Egress : Type 0 where
  pub id : String
  pub quota_group : String
  pub max_ws_connections : ℕ
  pub max_http_concurrency : ℕ
