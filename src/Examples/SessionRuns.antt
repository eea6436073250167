-- ===== src/Examples/SessionRuns.antt =====
-- Sessions that read, abort and finish.
use shenron.Common.{ℕ, ◌≤◌, ◌≡◌, refl, some, List, [], ◌∷◌, ◌++◌, text}
use shenron.Error.{ok}
use shenron.Channel.{ChannelMsg, data_msg, signal_msg, eof_msg, protocol_message}
use shenron.Session.{Session, shell, finish, abort, input_of, incoming_on}
use shenron.Session.Finish.{finish-finish, sent_on, closing}
use shenron.Session.Input.{first_data, input_of-first_data}
use shenron.Session.Statuses.{
  Use, reads, writes, aborts, finishes, use_all, statuses_on, statuses-use_all,
}
use shenron.Examples.Values.{session_of, open_channel_of}

abbrev typed : List ChannelMsg
typed = signal_msg (text "INT") ∷ protocol_message ∷ data_msg (104 ∷ 105 ∷ []) ∷ eof_msg ∷ []

abbrev asked : Session ℕ ℕ
asked = session_of shell typed

abbrev uses : List Use
uses = reads ∷ writes (104 ∷ []) ∷ aborts 130 ∷ writes (105 ∷ []) ∷ finishes 0 ∷ []

statuses-use_all_example : statuses_on (use_all uses asked).channel ≤ 1
statuses-use_all_example = statuses-use_all uses asked refl

finish-finish_example :
    (sent_on (finish 3 asked).0.channel ≡ [] ++ closing 3)
    × ((finish 3 asked).1 ≡ ok tt)
    × (finish 0 (finish 3 asked).0 ≡ ((finish 3 asked).0, ok tt))
    × (abort 0 (finish 3 asked).0 ≡ ((finish 3 asked).0, ok tt))
finish-finish_example = finish-finish 3 0 asked (open_channel_of typed) refl refl (λ n. refl)

input_of-first_data_example :
    (s : Session ℕ ℕ) × (input_of asked ≡ some (s, first_data (incoming_on asked.channel)))
input_of-first_data_example = input_of-first_data asked
