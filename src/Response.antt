-- ===== src/Response.antt =====
-- common/Response.h and common/Response.cpp: the envelope of every answer.
use sim_vision_sdk.Prelude.{ℕ, [], Text, text, Option}
use sim_vision_sdk.Prelude.Int.{ℤ, pos}
use sim_vision_sdk.Json.{Json}

-- `enum class Code`
pub data Code : Type 0 where
  success error not_ready already_init invalid_param unavailable : Code

abbrev pub code_number : Code → ℕ
code_number success = 0
code_number error = 1
code_number not_ready = 2
code_number already_init = 3
code_number invalid_param = 4
code_number unavailable = 5

unfoldable pub http_status : Code → ℕ
http_status success = 200
http_status already_init = 200
http_status error = 500
http_status not_ready = 400
http_status invalid_param = 400
http_status unavailable = 404

module _ (J : Json) where
  open J use {Value, object, set_field, of_string, of_integer, of_nat, dump}

  pub record Response : Type 0 where
    pub code : Code
    pub message : Text
    pub detail : Value
    pub server_id : Text
    pub client_id : Text
    pub recv_sec : ℤ
    pub recv_nsec : ℤ
    pub send_sec : ℤ
    pub send_nsec : ℤ

  -- `Response r; r.code = c; r.message = message; r.detail = detail;`
  abbrev pub respond : Code → Text → Value → Response
  respond c message detail = record {
    code = c;
    message = message;
    detail = detail;
    server_id = [];
    client_id = [];
    recv_sec = pos 0;
    recv_nsec = pos 0;
    send_sec = pos 0;
    send_nsec = pos 0;
  }

  abbrev pub from_error : Code → Text → Response
  from_error c message = respond c message object

  abbrev timestamp : ℤ → ℤ → Value
  timestamp sec nsec =
      set_field (set_field object (text "sec") (of_integer sec)) (text "nsec") (of_integer nsec)

  -- `none`: `dump` threw.
  unfoldable pub to_json : Response → Option Text
  to_json r =
      let a = set_field object (text "code") (of_nat (code_number r.code)) in
      let b = set_field a (text "message") (of_string r.message) in
      let c = set_field b (text "detail") r.detail in
      let d = set_field c (text "server_id") (of_string r.server_id) in
      let e = set_field d (text "client_id") (of_string r.client_id) in
      let f = set_field e (text "recv_timestamp") (timestamp r.recv_sec r.recv_nsec) in
      dump (set_field f (text "send_timestamp") (timestamp r.send_sec r.send_nsec))
