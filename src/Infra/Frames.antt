-- ===== src/Infra/Frames.antt =====
-- include/arbitrage/infra/tcp_protocol.hpp: messages and their bytes. A byte is a number below 256.
use kac.Base.{ℕ, ◌+◌, ◌*◌, ◌/◌, ◌%◌, ◌^◌, Bool, ◌&&◌, List, [], ◌∷◌, ◌++◌, ◌==◌, length}

pub data MessageType : Type 0 where
  ping pong auth_request auth_response disconnect ticker_update order_book_update premium_update :
      MessageType
  opportunity_alert order_status trade_result balance_update system_status health_status
        kill_switch :
      MessageType
  config_update cmd_start_strategy cmd_stop_strategy cmd_set_kill_switch cmd_get_status cmd_response
        protocol_error :
      MessageType

unfoldable pub type_code : MessageType → ℕ
type_code ping = 1
type_code pong = 2
type_code auth_request = 16
type_code auth_response = 17
type_code disconnect = 31
type_code ticker_update = 32
type_code order_book_update = 33
type_code premium_update = 34
type_code opportunity_alert = 35
type_code order_status = 48
type_code trade_result = 49
type_code balance_update = 50
type_code system_status = 64
type_code health_status = 65
type_code kill_switch = 66
type_code config_update = 67
type_code cmd_start_strategy = 128
type_code cmd_stop_strategy = 129
type_code cmd_set_kill_switch = 130
type_code cmd_get_status = 131
type_code cmd_response = 240
type_code protocol_error = 255

pub record MessageHeader : Type 0 where
  pub magic0 : ℕ
  pub magic1 : ℕ
  pub version : ℕ
  pub msg_type : ℕ
  pub payload_length : ℕ

unfoldable pub is_valid : MessageHeader → Bool
is_valid header = (header.magic0 == 75) && (header.magic1 == 65) && (header.version == 1)

pub record Message : Type 0 where
  pub header : MessageHeader
  pub payload : List ℕ

-- `Message(MessageType, data)`
unfoldable pub message_of : MessageType → List ℕ → Message
message_of type data_bytes = record {
  header = record {
    magic0 = 75;
    magic1 = 65;
    version = 1;
    msg_type = type_code type;
    payload_length = length data_bytes % 2 ^ 32;
  };
  payload = data_bytes;
}

-- `sizeof(MessageHeader)`
abbrev pub header_size : ℕ
header_size = 8

-- the packed header, with the length in the byte order of x86 and ARM
unfoldable pub header_bytes : MessageHeader → List ℕ
header_bytes h =
    h.magic0
    ∷ h.magic1
    ∷ h.version
    ∷ h.msg_type
    ∷ h.payload_length % 256
    ∷ h.payload_length / 256 % 256
    ∷ h.payload_length / 65536 % 256
    ∷ h.payload_length / 16777216 % 256
    ∷ []

unfoldable pub serialize : Message → List ℕ
serialize m = header_bytes m.header ++ m.payload

-- `memcpy(&header, buffer, sizeof(MessageHeader))`, of eight bytes
unfoldable pub header_of : ℕ → ℕ → ℕ → ℕ → ℕ → ℕ → ℕ → ℕ → MessageHeader
header_of a b c d e f g h = record {
  magic0 = a;
  magic1 = b;
  version = c;
  msg_type = d;
  payload_length = e + 256 * f + 65536 * g + 16777216 * h;
}
