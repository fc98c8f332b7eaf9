-- ===== src/Server/Connection.antt =====
-- api/AdminServer.cpp: `handle_connection`. nlohmann::json and the TLS library are parameters.
use sim_vision_sdk.Prelude.{
  ℕ, ◌+◌, ◌*◌, ◌≡◌, ◌≢◌, Bool, true, not, Option, none, some, List, [], ◌++◌, Text, text,
  if◌then◌else◌, length, ltb, take, drop,
}
use sim_vision_sdk.Prelude.Int.{ℤ}
use sim_vision_sdk.Prelude.Search.{to_string}
use sim_vision_sdk.Json.{Json}
use sim_vision_sdk.Response.{Response, Code, http_status, to_json}
use sim_vision_sdk.Commands.Objects.{World}
use sim_vision_sdk.Commands.Parse.{normalize_command, is_empty}
use sim_vision_sdk.Commands.{Result, handle}
use sim_vision_sdk.Server.Reading.{ReadResult, ReadOutcome, crlf, read_until_headers, read_body}
use sim_vision_sdk.Server.Request.{parse_request_line}
use sim_vision_sdk.Server.Sending.{WriteResult, send_all}

-- What the libraries and the clock say during one connection.
pub record Peer : Type 0 where
  -- `SSL_new` and `SSL_accept` succeed.
  pub tls : Bool
  pub reads : List ReadResult
  pub writes : ℕ → ℕ → WriteResult
  pub received_at : ℤ × ℤ
  pub answered_at : ℤ × ℤ

-- `body_raw.resize(content_length)`, where it is longer
abbrev pub resized : ℕ → Option ReadOutcome → Option Text
resized n none = none
resized n (some (_, body_raw, _)) =
    some (if ltb n (length body_raw) then take n body_raw else body_raw)

-- The body, from what the headers' reads brought along and further reads; `none` while they wait.
unfoldable pub read_rest : List ReadResult → Text → ℕ → Option Text
read_rest reads body_raw content_length =
    if ltb (length body_raw) content_length
    then resized content_length (read_body reads body_raw content_length)
    else some body_raw

abbrev pub body_part : Text → ℕ → Text
body_part buf header_end =
    if ltb (length buf) (header_end + 4) then [] else drop (header_end + 4) buf

unfoldable pub http_text : Code → Text → Text
http_text code body_json =
    text "HTTP/1.1 "
    ++ (to_string (http_status code)
        ++ (text " OK"
            ++ (crlf
                ++ (text "Content-Type: application/json"
                    ++ (crlf
                        ++ (text "Content-Length: "
                            ++ (to_string (length body_json)
                                ++ (crlf
                                    ++ (text "Connection: close"
                                        ++ (crlf ++ (crlf ++ body_json)))))))))))

module _ (J : Json) where
  open J use {Value, contains, at, is_string, is_null, get_string, object, dump, parse}

  -- The connection waits for bytes, or was closed with no answer, or a request with this path and body is there.
  pub data Received : Type 0 where
    waiting closed : Received
    request : Text → Value → Received

  abbrev pub or_object : Option Value → Value
  or_object none = object
  or_object (some v) = v

  unfoldable pub parse_body : Text → Value
  parse_body body_raw = if is_empty body_raw then object else or_object (parse body_raw)

  abbrev pub with_body : Text → Option Text → Received
  with_body path none = waiting
  with_body path (some body_raw) = request path (parse_body body_raw)

  abbrev pub with_headers : Option ReadOutcome → Received
  with_headers none = waiting
  with_headers (some (ok, buf, more)) =
      let r = parse_request_line buf in
      if ok
      then with_body r.path (read_rest more (body_part buf r.header_end) r.content_length)
      else closed

  -- `get<std::string>()` succeeds on strings.
  abbrev pub StringReads : Type 0
  StringReads = (v : Value) → is_string v ≡ true → get_string v ≢ none

  -- Up to the body.
  unfoldable pub receive : Peer → Received
  receive peer = if peer.tls then with_headers (read_until_headers peer.reads []) else closed

  -- `none`: `dump` threw.
  unfoldable pub client_of : Value → Option Text
  client_of body =
      if not (contains body (text "client_id"))
      then some (text "default")
      else if is_string (at body (text "client_id"))
      then get_string (at body (text "client_id"))
      else if is_null (at body (text "client_id"))
      then some (text "default")
      else dump (at body (text "client_id"))

  -- What becomes of a connection: it waits, it was closed with no answer, an exception left the thread's function
  -- and ended the process, or the text was answered, with the result of `send_all`.
  pub data Outcome : Type 0 where
    reading dropped crashed : Outcome
    answered : World J → Text → Option (Bool × ℕ) → Outcome

  abbrev pub stamped : Text → Text → Peer → Response J → Response J
  stamped server_id client_id peer r = record r {
    server_id = server_id;
    client_id = client_id;
    recv_sec = peer.received_at.0;
    recv_nsec = peer.received_at.1;
    send_sec = peer.answered_at.0;
    send_nsec = peer.answered_at.1;
  }

  abbrev pub send_http : Peer → World J → Text → Outcome
  send_http peer w http =
      answered w http (send_all (65 * length http + 66) peer.writes 0 (length http) 0 0)

  abbrev pub send_json : Peer → World J → Code → Option Text → Outcome
  send_json peer w code none = crashed
  send_json peer w code (some body_json) = send_http peer w (http_text code body_json)

  abbrev pub send_result : Text → Text → Peer → Result J → Outcome
  send_result server_id client_id peer none = crashed
  send_result server_id client_id peer (some (w, r)) =
      send_json peer w r.code (to_json J (stamped server_id client_id peer r))

  abbrev pub answer_client : Text → World J → Peer → Text → Value → Option Text → Outcome
  answer_client server_id w peer path body none = crashed
  answer_client server_id w peer path body (some client_id) =
      send_result server_id client_id peer
        (handle J w (normalize_command J path body) body client_id)

  -- From the client's name on.
  unfoldable pub answer : Text → World J → Peer → Received → Outcome
  answer server_id w peer waiting = reading
  answer server_id w peer closed = dropped
  answer server_id w peer (request path body) =
      answer_client server_id w peer path body (client_of body)

  unfoldable pub handle_connection : Text → World J → Peer → Outcome
  handle_connection server_id w peer = answer server_id w peer (receive peer)
