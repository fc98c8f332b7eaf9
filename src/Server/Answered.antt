-- ===== src/Server/Answered.antt =====
-- What becomes of the state and of the process when a connection is handled.
use sim_vision_sdk.Prelude.{◌≡◌, ◌⊎◌, refl, true, false, Option, none, some, Text, text, length}
use sim_vision_sdk.Json.{Json, StringLaw}
use sim_vision_sdk.Response.{Code, to_json}
use sim_vision_sdk.Commands.Objects.{World}
use sim_vision_sdk.Commands.Parse.{normalize_command}
use sim_vision_sdk.Commands.{Result, handle}
use sim_vision_sdk.Commands.Throws.{channel_command_throws}
use sim_vision_sdk.Commands.Invariant.{WorldInv, Keeps, handle-WorldInv}
use sim_vision_sdk.Server.Sending.{WriteLaw, Ended, send_all_lem}
use sim_vision_sdk.Server.Connection.{
  Peer, http_text, Received, receive, client_of, Outcome, stamped, send_json, send_result,
  answer_client, answer, handle_connection, waiting, closed, request, crashed, answered,
}

module _ (J : Json) where
  open J use {Value, contains, at, is_string, is_null, get_string, object, dump, parse}

  -- A connection leaves the state valid, unless the process has ended, and the answer was sent as far as said.
  abbrev pub Left : Outcome J → Type 0
  Left (answered w http sent) = WorldInv J w × Ended (length http) sent
  Left _ = Unit {0}

  send_json-Left :
      (peer : Peer) (w : World J) (code : Code) (o : Option Text)
      → WriteLaw peer.writes
      → WorldInv J w
      → Left (send_json J peer w code o)
  send_json-Left peer w code none law v = tt
  send_json-Left peer w code (some body_json) law v =
      (v, send_all_lem peer.writes (length (http_text code body_json)) law)

  send_result-Left :
      (server_id client_id : Text) (peer : Peer) (o : Result J)
      → WriteLaw peer.writes
      → Keeps J o
      → Left (send_result J server_id client_id peer o)
  send_result-Left server_id client_id peer none law v = tt
  send_result-Left server_id client_id peer (some (w, r)) law v =
      send_json-Left peer w r.code (to_json J (stamped J server_id client_id peer r)) law v

  answer_client-Left :
      (server_id : Text) (w : World J) (peer : Peer) (path : Text) (body : Value) (o : Option Text)
      → WriteLaw peer.writes
      → WorldInv J w
      → Left (answer_client J server_id w peer path body o)
  answer_client-Left server_id w peer path body none law v = tt
  answer_client-Left server_id w peer path body (some client_id) law v =
      let command = normalize_command J path body in
      send_result-Left server_id client_id peer (handle J w command body client_id) law
        (handle-WorldInv J w command body client_id v)

  answer-Left :
      (server_id : Text) (w : World J) (peer : Peer) (received : Received J)
      → WriteLaw peer.writes
      → WorldInv J w
      → Left (answer J server_id w peer received)
  unfolding answer
  answer-Left server_id w peer waiting law v = tt
  answer-Left server_id w peer closed law v = tt
  answer-Left server_id w peer (request path body) law v =
      answer_client-Left server_id w peer path body (client_of J body) law v

  -- If `SSL_write` keeps to its contract and the state was valid, then a connection that gets an answer leaves a
  -- valid state, and `send_all` returned and said whether the whole answer was sent.
  pub handle_connection-Left :
      (server_id : Text) (w : World J) (peer : Peer)
      → WriteLaw peer.writes
      → WorldInv J w
      → Left (handle_connection J server_id w peer)
  unfolding handle_connection
  handle_connection-Left server_id w peer = answer-Left server_id w peer (receive J peer)

  answer_client-throws :
      (server_id : Text) (w : World J) (peer : Peer) (path : Text) (body : Value) (o : Option Text)
      → ((client_id : Text) → handle J w (normalize_command J path body) body client_id ≡ none)
      → answer_client J server_id w peer path body o ≡ crashed
  answer_client-throws server_id w peer path body none h = refl
  answer_client-throws server_id w peer path body (some client_id) h = rw (h client_id) refl

  -- If `get<std::string>()` fails on what is no string, one request to activate or deactivate a channel whose
  -- `data_type` is no string ends the process, whoever sends it and whatever the state.
  pub handle_connection_crashes :
      (server_id : Text) (w : World J) (peer : Peer) (path : Text) (body : Value)
      → StringLaw J
      → receive J peer ≡ request path body
      → (normalize_command J path body ≡ text "activate_channel")
        ⊎ (normalize_command J path body ≡ text "deactivate_channel")
      → contains body (text "data_type") ≡ true
      → is_string (at body (text "data_type")) ≡ false
      → handle_connection J server_id w peer ≡ crashed
  unfolding handle_connection answer
  handle_connection_crashes server_id w peer path body law e command has no_string =
      rw (e, answer)
        (answer_client-throws server_id w peer path body (client_of J body) (λ client_id.
          channel_command_throws J w (normalize_command J path body) body client_id law command has
            no_string))
