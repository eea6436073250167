-- ===== src/Events.antt =====
-- src/events: the events of an application loop, and the interceptors before it.
pub mod Interceptors
pub mod Merging
use shenron.Common.{ℕ, List, Text}
use shenron.Channel.{PtySize}
use shenron.Session

pub data Event (M : Type 0) : Type 0 where
  input : List ℕ → Event M
  resize : PtySize → Event M
  signal : Text → Event M
  app : M → Event M
  eof : Event M

-- `impl From<crate::Event> for Event<M>`
unfoldable pub from_session : {M : Type 0} → Session.Event → Event M
from_session (Session.input d) = input d
from_session (Session.resize size) = resize size
from_session (Session.signal name) = signal name
from_session Session.eof = eof
