-- ===== src/Account.antt =====
-- A discovered account (internal/account/discovery.go).
pub mod Discovery
use cpa_codex_auto_reset.Prelude.{String, Bool}

pub record Account : Type 0 where
  pub ref : String
  pub auth_id : String
  pub auth_index : String
  pub account_id : String
  pub access_token : String
  pub label : String
  pub email : String
  pub file_name : String
  pub disabled : Bool
