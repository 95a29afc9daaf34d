-- ===== src/Context.antt =====
-- The chat context store of multinexus/context/store.py: the rows of its two tables.
use multinexus.Base.{ℕ, String, Bool, List, Option}
pub mod Outbox
pub mod Delivery
pub mod Messages
pub mod Window
pub mod Envelope
pub mod Prompt
mod Examples

-- The `status` of a row of `runtime_reply_outbox`.
pub data ReplyStatus : Type 0 where
  pending sent : ReplyStatus

pub record Reply : Type 0 where
  pub job_id : List ℕ
  pub workspace_id : List ℕ
  pub platform : List ℕ
  pub destination_id : List ℕ
  pub quote_message_id : List ℕ
  pub created_at_ms : ℕ
  pub status : ReplyStatus
  pub attempts : ℕ
  pub last_error_code : List ℕ
  pub sent_at_ms : Option ℕ

-- A row of `messages` with its `rowid`.
pub record Message : Type 0 where
  pub context_order : ℕ
  pub message_id : List ℕ
  pub channel_id : List ℕ
  pub author_id : List ℕ
  pub author_name : List ℕ
  pub author_is_bot : Bool
  pub content : List ℕ
  pub created_at_ms : ℕ
  pub source : List ℕ
