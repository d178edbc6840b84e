-- ===== src/Broker/Stream.antt =====
-- internal/backend/forwarder/types.go and interrupt.go: the data of an active stream, as far as the
-- broker reads or writes it, and the supported modes.
use cursor_switch.Common.{ℕ, Bool, true, false, Option, List}
use cursor_switch.Common.Int.{ℤ}
use cursor_switch.Common.Text.{Text}
use cursor_switch.Common.StringMap.{StringMap}

-- `unset` is the empty string.
pub data StreamStatus : Type 0 where
  unset created streaming completed canceled failed : StreamStatus

pub data TurnPhase : Type 0 where
  phase_unset phase_idle phase_provider_running phase_waiting_external phase_awaiting_user :
      TurnPhase
  phase_compacting phase_completed phase_failed phase_canceled : TurnPhase

-- `other_mode` is any value of the protocol's enum that is not named here.
pub data AgentMode : Type 0 where
  mode_agent mode_ask mode_plan mode_debug mode_multitask other_mode : AgentMode

unfoldable pub is_supported_active_mode : AgentMode → Bool
is_supported_active_mode other_mode = false
is_supported_active_mode _ = true

unfoldable pub is_terminal_stream_status : StreamStatus → Bool
is_terminal_stream_status completed = true
is_terminal_stream_status canceled = true
is_terminal_stream_status failed = true
is_terminal_stream_status _ = false

unfoldable pub is_terminal_phase : TurnPhase → Bool
is_terminal_phase phase_canceled = true
is_terminal_phase phase_completed = true
is_terminal_phase phase_failed = true
is_terminal_phase _ = false

abbrev pub is_unset : StreamStatus → Bool
is_unset unset = true
is_unset _ = false

-- `M` is the type of the protocol's messages.
pub record StreamEvent (M : Type 0) : Type 0 where
  pub message : Option M
  pub ends : Bool
  pub terminal_error_code : Text
  pub terminal_error_message : Text

-- A subscriber is the state of its channel: whether a signal waits in it. `cleanup_timer` is the
-- sequence number with which the timer will fire.
pub record ActiveStream (M : Type 0) : Type 0 where
  pub request_id : Text
  pub conversation_id : Text
  pub turn_seq : ℤ
  pub model_id : Text
  pub model_name : Text
  pub mode : AgentMode
  pub latest_user_text : Text
  pub status : StreamStatus
  pub phase : TurnPhase
  pub provider_active : Bool
  pub has_provider_cancel : Bool
  pub backlog : List (StreamEvent M)
  pub subscribers : StringMap Bool
  pub cleanup_timer : Option ℕ
  pub cleanup_seq : ℕ
  pub created_at : ℕ
  pub updated_at : ℕ
