-- ===== src/Channel.antt =====
-- A session channel of russh, as the source uses it: the messages that `wait` will deliver, and
-- the messages sent. Whether russh accepts a message is a parameter: `refuses n` says whether it
-- fails the n-th one, as it does when the connection is gone.
use shenron.Common.{ℕ, suc, Bool, List, [], ◌∷◌, ◌++◌, if◌then◌else◌, Text}
use shenron.Error.{Error, ssh, Result, ok, err}

-- src/session/pty.rs
pub record PtySize : Type 0 where
  pub width : ℕ
  pub height : ℕ
  pub pixel_width : ℕ
  pub pixel_height : ℕ

-- `russh::ChannelMsg`; `protocol_message` stands for each variant that the source skips.
pub data ChannelMsg : Type 0 where
  data_msg : List ℕ → ChannelMsg
  window_change : (col_width row_height pix_width pix_height : ℕ) → ChannelMsg
  signal_msg : Text → ChannelMsg
  eof_msg : ChannelMsg
  protocol_message : ChannelMsg

-- What the source sends; `str_data` and `stderr_str` carry the bytes of a text.
pub data Outgoing : Type 0 where
  data_out : List ℕ → Outgoing
  extended_data : ℕ → List ℕ → Outgoing
  exit_status : ℕ → Outgoing
  eof_out close_out : Outgoing

pub record Channel : Type 0 where
  pub id : ℕ
  pub incoming : List ChannelMsg
  pub sent : List Outgoing
  pub attempts : ℕ
  pub refuses : ℕ → Bool

-- One `send`: it is appended, or fails.
unfoldable pub send : Outgoing → Channel → Channel × Result Error (Unit {0})
send m ch =
    if ch.refuses ch.attempts
    then (record ch { attempts = suc ch.attempts }, err (ssh []))
    else (record ch { attempts = suc ch.attempts; sent = ch.sent ++ m ∷ [] }, ok tt)
