-- ===== src/Hitl.antt =====
-- src/hitl.rs: yield requests, resume modes and the audit records of a resume.
-- `V` stands for `serde_json::Value`.
use takeln.Base.{ℕ, String, Option, none, some}

pub data ResumeMode : Type 0 where
  re_entry handoff : ResumeMode

pub record YieldRequest (V : Type 0) : Type 0 where
  pub interrupt_id : String
  pub message : String
  pub schema : Option V
  pub resume_mode : ResumeMode
  pub payload_ref : Option String

-- `ResumeMode::default`
abbrev pub default_mode : ResumeMode
default_mode = re_entry

module _ {V : Type 0} where
  -- `YieldRequest::simple`: the message is the interrupt's identifier too.
  unfoldable pub simple : String → YieldRequest V
  simple msg = record {
    interrupt_id = msg;
    message = msg;
    schema = none;
    resume_mode = default_mode;
    payload_ref = none;
  }

  -- `YieldRequest::new`
  unfoldable pub new_request : String → String → YieldRequest V
  new_request interrupt_id message = record {
    interrupt_id = interrupt_id;
    message = message;
    schema = none;
    resume_mode = default_mode;
    payload_ref = none;
  }

  unfoldable pub with_schema : YieldRequest V → V → YieldRequest V
  with_schema r schema = record r { schema = some schema }

  unfoldable pub with_resume_mode : YieldRequest V → ResumeMode → YieldRequest V
  with_resume_mode r mode = record r { resume_mode = mode }

  unfoldable pub with_payload_ref : YieldRequest V → String → YieldRequest V
  with_payload_ref r reference = record r { payload_ref = some reference }

pub record ResumeContext (V : Type 0) : Type 0 where
  pub actor : Option String
  pub metadata : Option V

module _ {V : Type 0} where
  -- `ResumeContext::new`
  unfoldable pub resume_context : String → ResumeContext V
  resume_context actor = record { actor = some actor; metadata = none }

  -- `ResumeContext::with_metadata`
  unfoldable pub with_metadata : ResumeContext V → V → ResumeContext V
  with_metadata context metadata = record context { metadata = some metadata }

pub record ResumeRecord : Type 0 where
  pub interrupt_id : String
  pub thread_id : String
  pub node_name : String
  pub actor : Option String
  pub resumed_at : ℕ
  pub response_hash : String
