-- ===== src/Infra/Receive/Tests.antt =====
-- The theorem on `handle_received_data` at two messages that come in three chunks.
use kac.Base.{ℕ, true, false, none, List, [], ◌∷◌, ◌≡◌, refl, arith}
use kac.Infra.Frames.{
  Message, message_of, ping, ticker_update, serialize, header_bytes, is_valid, type_code,
}
use kac.Infra.Session.{Settings}
use kac.Infra.Receive.{Client, receive_all}
use kac.Infra.Receive.Whole.{AllFrames, IsFrame, nil, cons, wire, accept_all}
use kac.Infra.Receive.Stream.{but_bytes, receive_all-frames, flat}

abbrev open_server : Settings
open_server = record { require_auth = false; auth_callback = none; has_message_callback = true }

abbrev new_client : Client
new_client = record {
  connected = true;
  recv_buf = [];
  bytes_received = 0;
  messages_received = 0;
  session = record {
    authenticated = false;
    username = [];
    sent = [];
    delivered = [];
    auth_failures = 0;
  };
}

abbrev two_messages : List Message
two_messages = message_of ping [] ∷ message_of ticker_update (7 ∷ 8 ∷ []) ∷ []

abbrev three_chunks : List (List ℕ)
three_chunks =
    (75 ∷ 65 ∷ 1 ∷ [])
    ∷ (1 ∷ 0 ∷ 0 ∷ 0 ∷ 0 ∷ 75 ∷ 65 ∷ [])
    ∷ (1 ∷ 32 ∷ 2 ∷ 0 ∷ 0 ∷ 0 ∷ 7 ∷ 8 ∷ [])
    ∷ []

ping-IsFrame : IsFrame (message_of ping [])
unfolding message_of is_valid
ping-IsFrame = record { marked = refl; measured = refl; fits = omega arith }

ticker-IsFrame : IsFrame (message_of ticker_update (7 ∷ 8 ∷ []))
unfolding message_of is_valid
ticker-IsFrame = record { marked = refl; measured = refl; fits = omega arith }

two_messages-AllFrames : AllFrames two_messages
two_messages-AllFrames = cons ping-IsFrame (cons ticker-IsFrame nil)

receive_all-frames_example :
    but_bytes (receive_all open_server 100 three_chunks new_client)
    ≡ but_bytes (accept_all open_server two_messages new_client)
unfolding flat wire serialize header_bytes message_of type_code
receive_all-frames_example =
    receive_all-frames open_server 100 two_messages three_chunks new_client two_messages-AllFrames
      refl refl (omega arith)
