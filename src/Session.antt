-- ===== src/Session.antt =====
-- session/: the conversation that a user goes on with, and a copy of its beginning.
pub mod Fork
use kkode.Prelude.{ℕ, List, Option}
use kkode.Strings.{Text}
use kkode.Gateway.Runs.{Metadata}
use kkode.Llm.Loop.{Request, Response, Item}

module _ (Rest : Type 0) where
  -- `Turn` of session/session.go. Times are numbers.
  pub record Turn : Type 0 where
    pub id : Text
    pub prompt : Text
    pub request : Request Rest
    pub response : Option Response
    pub started_at : ℕ
    pub ended_at : ℕ
    pub error : Text

-- `Event`
pub record Event : Type 0 where
  pub id : Text
  pub session_id : Text
  pub turn_id : Text
  pub at : ℕ
  pub kind : Text
  pub tool : Text
  pub payload : Text
  pub error : Text

-- `TodoStatus` and `Todo`
pub data TodoStatus : Type 0 where
  pending in_progress completed cancelled : TodoStatus

pub record Todo : Type 0 where
  pub id : Text
  pub content : Text
  pub status : TodoStatus
  pub priority : Text
  pub updated_at : ℕ

-- `AgentMode`
pub data AgentMode : Type 0 where
  build plan ask : AgentMode

-- `Session`
pub record Session (Rest : Type 0) : Type 0 where
  pub id : Text
  pub project_root : Text
  pub provider_name : Text
  pub model : Text
  pub agent_name : Text
  pub mode : AgentMode
  pub created_at : ℕ
  pub updated_at : ℕ
  pub turns : List (Turn Rest)
  pub events : List Event
  pub todos : List Todo
  pub summary : Text
  pub last_response_id : Text
  pub last_input_items : List Item
  pub metadata : Option Metadata
