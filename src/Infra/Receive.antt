-- ===== src/Infra/Receive.antt =====
-- src/infra/tcp_client_manager.cpp: `handle_received_data`, for one client. A client that is
-- disconnected is removed with its buffer. The time of the last activity and the totals over all
-- clients are left out.
pub mod Chunks
pub mod Whole
pub mod Stream
mod Tests
use kac.Base.{
  ℕ, zero, suc, ◌+◌, ◌-◌, Bool, true, false, not, ◌&&◌, Option, none, some, List, [], ◌∷◌, ◌++◌,
  if◌then◌else◌, length, take, drop, ltb,
}
use kac.Word.{add64}
use kac.Infra.Frames.{
  Message, MessageHeader, header_of, is_valid, header_size, message_of, disconnect,
}
use kac.Infra.Session.{
  Session, Settings, send_message, process_message, text_too_large, text_invalid_header,
}

pub record Client : Type 0 where
  pub connected : Bool
  pub recv_buf : List ℕ
  pub bytes_received : ℕ
  pub messages_received : ℕ
  pub session : Session

-- What the front of the buffer is.
pub data Front : Type 0 where
  need_more_data : Front
  need_disconnect : Front
  complete : Message → (rest : List ℕ) → Front

-- what follows a header, when enough bytes are there
unfoldable pub cut : MessageHeader → List ℕ → Front
cut header bytes =
    if not (is_valid header)
    then need_disconnect
    else if ltb (length bytes) header.payload_length
    then need_more_data
    else complete (record { header = header; payload = take header.payload_length bytes })
        (drop header.payload_length bytes)

unfoldable pub front : List ℕ → Front
front (a ∷ b ∷ c ∷ d ∷ e ∷ f ∷ g ∷ h ∷ bytes) = cut (header_of a b c d e f g h) bytes
front fewer = need_more_data

-- `remove_client`
unfoldable pub remove_client : Client → Client
remove_client client = record client { connected = false; recv_buf = [] }

unfoldable pub disconnect_client : List ℕ → Client → Client
disconnect_client reason client =
    remove_client
      (record client { session = send_message (message_of disconnect reason) client.session })

-- a complete message leaves the buffer and is processed
unfoldable pub accept : Settings → Message → List ℕ → Client → Client
accept settings message rest client =
    let (stays, after) = process_message settings message client.session in
    let counted : Client = record client {
      recv_buf = rest;
      messages_received = add64 client.messages_received 1;
      session = after;
    } in
    if stays then counted else remove_client counted

-- the loop over complete messages; each round takes a header at least out of the buffer
unfoldable pub parse_loop : ℕ → Settings → Client → Client
parse_loop zero settings client = client
parse_loop (suc fuel) settings client =
    if not client.connected then client else elim (front client.recv_buf) [
      | need_more_data ↦ client
      | need_disconnect ↦ disconnect_client text_invalid_header client
      | complete message rest ↦ parse_loop fuel settings (accept settings message rest client)
    ]

unfoldable pub append : List ℕ → Client → Client
append bytes client = record client { recv_buf = client.recv_buf ++ bytes }

unfoldable pub handle_received_data : Settings → ℕ → List ℕ → Client → Bool × Client
handle_received_data settings max_message_size bytes client =
    let filled : Client = record (append bytes client) {
      bytes_received = add64 client.bytes_received (length bytes);
    } in
    let parsed = parse_loop (suc (length filled.recv_buf)) settings filled in
    if not client.connected
    then (false, client)
    else if ltb max_message_size (length filled.recv_buf)
    then (false, disconnect_client text_too_large filled)
    else (parsed.connected, parsed)

-- chunks of bytes as they come
unfoldable pub receive_all : Settings → ℕ → List (List ℕ) → Client → Client
receive_all settings max_message_size [] client = client
receive_all settings max_message_size (bytes ∷ chunks) client =
    receive_all settings max_message_size chunks
      ((handle_received_data settings max_message_size bytes client).1)
