-- ===== src/Domain/Proof.antt =====
-- packages/domain/src/types.ts: `ProofPack`, the record of a browser run.
use telegram_job_search_auto.Common.{String, Option}
use telegram_job_search_auto.Domain.Types.{ErrorCode}

pub record ProofPack : Type 0 where
  pub proof_pack_id : String
  pub provider : String
  pub account_id : String
  pub entity_id : String
  pub flow_id : String
  pub flow_version : String
  pub selector_pack_version : String
  pub started_at : String
  pub completed_at : Option String
  pub pre_action_screenshot_key : Option String
  pub post_action_screenshot_key : Option String
  pub dom_snapshot_before_key : Option String
  pub dom_snapshot_after_key : Option String
  pub confirmation_text : Option String
  pub confirmation_url : Option String
  pub final_status : String
  pub error_code : Option ErrorCode
  pub audit_event_id : Option String
