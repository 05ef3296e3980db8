-- ===== src/Infra/Session.antt =====
-- src/infra/tcp_client_manager.cpp: what a message of one client does. The callbacks are parameters
-- that do not call the manager and do not throw; `sent` is what is handed to the socket of the client, `delivered`
-- what the message callback is given.
use kac.Base.{
  ℕ, Bool, true, false, not, ◌&&◌, Option, none, some, List, [], ◌∷◌, ◌++◌, ◌==◌, if◌then◌else◌,
}
use kac.Word.{add64}
use kac.Infra.Frames.{
  Message, message_of, type_code, ping, pong, auth_request, auth_response, disconnect,
  protocol_error,
}

pub record Session : Type 0 where
  pub authenticated : Bool
  pub username : List ℕ
  pub sent : List Message
  pub delivered : List Message
  pub auth_failures : ℕ

-- What the manager is configured with.
pub record Settings : Type 0 where
  pub require_auth : Bool
  pub auth_callback : Option (List ℕ → List ℕ → Bool)
  pub has_message_callback : Bool

-- "OK"
abbrev pub text_ok : List ℕ
text_ok = 79 ∷ 75 ∷ []

-- "FAILED"
abbrev pub text_failed : List ℕ
text_failed = 70 ∷ 65 ∷ 73 ∷ 76 ∷ 69 ∷ 68 ∷ []

-- "Authentication required"
abbrev pub text_auth_required : List ℕ
text_auth_required =
    65 ∷ 117 ∷ 116 ∷ 104 ∷ 101 ∷ 110 ∷ 116 ∷ 105 ∷ 99 ∷ 97 ∷ 116 ∷ 105 ∷ 111 ∷ 110 ∷ 32 ∷ 114 ∷ 101
    ∷ 113 ∷ 117 ∷ 105 ∷ 114 ∷ 101 ∷ 100 ∷ []

-- "Authentication failed"
abbrev pub text_auth_failed : List ℕ
text_auth_failed =
    65 ∷ 117 ∷ 116 ∷ 104 ∷ 101 ∷ 110 ∷ 116 ∷ 105 ∷ 99 ∷ 97 ∷ 116 ∷ 105 ∷ 111 ∷ 110 ∷ 32 ∷ 102 ∷ 97
    ∷ 105 ∷ 108 ∷ 101 ∷ 100 ∷ []

-- "Message too large"
abbrev pub text_too_large : List ℕ
text_too_large =
    77 ∷ 101 ∷ 115 ∷ 115 ∷ 97 ∷ 103 ∷ 101 ∷ 32 ∷ 116 ∷ 111 ∷ 111 ∷ 32 ∷ 108 ∷ 97 ∷ 114 ∷ 103 ∷ 101
    ∷ []

-- "Invalid message header"
abbrev pub text_invalid_header : List ℕ
text_invalid_header =
    73 ∷ 110 ∷ 118 ∷ 97 ∷ 108 ∷ 105 ∷ 100 ∷ 32 ∷ 109 ∷ 101 ∷ 115 ∷ 115 ∷ 97 ∷ 103 ∷ 101 ∷ 32 ∷ 104
    ∷ 101 ∷ 97 ∷ 100 ∷ 101 ∷ 114 ∷ []

unfoldable pub send_message : Message → Session → Session
send_message message s = record s { sent = s.sent ++ message ∷ [] }

-- the text before the first colon, and what follows it; without a colon all is the second
unfoldable pub before_colon : List ℕ → Option (List ℕ × List ℕ)
before_colon [] = none
before_colon (c ∷ text) =
    let rest = before_colon text in
    if c == 58
    then some ([], text)
    else elim rest [ none ↦ none | some (user, word) ↦ some (c ∷ user, word) ]

unfoldable pub credentials : List ℕ → List ℕ × List ℕ
credentials payload = elim (before_colon payload) [ none ↦ ([], payload) | some pair ↦ pair ]

unfoldable pub auth_success : Settings → List ℕ → List ℕ → Bool
auth_success settings username password = elim settings.auth_callback [
  | none ↦ not settings.require_auth
  | some callback ↦ callback username password
]

-- The first component says whether the client stays connected.
unfoldable pub handle_auth : Settings → Message → Session → Bool × Session
handle_auth settings message s =
    let (username, password) = credentials message.payload in
    if auth_success settings username password
    then (
      true,
      send_message (message_of auth_response text_ok)
          (record s { authenticated = true; username = username }),
    )
    else (
      false,
      send_message (message_of disconnect text_auth_failed) (
          send_message (message_of auth_response text_failed)
            (record s { auth_failures = add64 s.auth_failures 1 })),
    )

unfoldable pub process_message : Settings → Message → Session → Bool × Session
process_message settings message s =
    if message.header.msg_type == type_code ping
    then (true, send_message (message_of pong []) s)
    else if message.header.msg_type == type_code auth_request
    then handle_auth settings message s
    else if settings.require_auth && not s.authenticated
    then (true, send_message (message_of protocol_error text_auth_required) s)
    else if settings.has_message_callback
    then (true, record s { delivered = s.delivered ++ message ∷ [] })
    else (true, s)
