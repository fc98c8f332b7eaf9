-- ===== src/Tests/Serving.antt =====
-- The server's connections at concrete inputs.
use sim_vision_sdk.Prelude.{
  ℕ, zero, suc, ◌+◌, ◌*◌, ◌≤◌, ◌≡◌, ◌⊎◌, inl, refl, Bool, true, false, some, List, [], ◌∷◌, ◌++◌,
  Text, text, arith, length, to_lower, ℕ-eq, text-eq,
}
use sim_vision_sdk.Prelude.Int.{pos}
use sim_vision_sdk.Prelude.Set.{contains}
use sim_vision_sdk.Prelude.Search.{find, stoul}
use sim_vision_sdk.Json.{Json, StringLaw}
use sim_vision_sdk.Json.Tree.{Tree, int, obj, end, field, tree_json, tree_json-StringLaw}
use sim_vision_sdk.Commands.Parse.{
  normalize_command, path_command, strip_slash, strip_api, resolve, after_slash, after_prefix,
  alias_map,
}
use sim_vision_sdk.Commands.Objects.{World}
use sim_vision_sdk.Prelude.Map.{lookup}
use sim_vision_sdk.Server.Reading.{
  ReadResult, got, again, failed, crlf, end_of_headers, is_found, read_until_headers,
  read_until_headers_lem,
}
use sim_vision_sdk.Server.Parsed.{request_line, with_query, parse_request_line_lem}
use sim_vision_sdk.Server.Request.{parse_request_line}
use sim_vision_sdk.Server.Sending.{
  WriteResult, wrote, broken, WriteLaw, Ended, send_all, send_all_lem,
}
use sim_vision_sdk.Server.Connection.{
  http_text, body_part, Peer, request, receive, parse_body, read_rest, handle_connection, crashed,
}
use sim_vision_sdk.Server.Answered.{Left, handle_connection-Left, handle_connection_crashes}
use sim_vision_sdk.Server.Framing.{http_text-parse_request_line}
use sim_vision_sdk.Response.{success}
use sim_vision_sdk.Server.Pending.{
  Pending, started, enqueue, admitted, begin_stopping, end_running, accepts, ends_running,
  begins_stopping, start, later, Reach, IsValid, is_ready, reach-IsValid,
}
use sim_vision_sdk.Server.Stopping.{
  Thread, worker_turn, stop_turn, joining, joined, at_stop, notifying, is_deciding, run, turn,
  stop_lem,
}
use sim_vision_sdk.Pipeline.{make_pipeline}
use sim_vision_sdk.Tests.Requests.{world, world-WorldInv}

-- `SSL_write` takes everything at once.
abbrev whole : ℕ → ℕ → WriteResult
whole k zero = broken
whole k (suc m) = wrote (suc m)

whole-WriteLaw : WriteLaw whole
whole-WriteLaw k zero n e = absurd (ground (arith, e))
whole-WriteLaw k (suc m) n e = ground (arith, e)

-- A connection that fails after its first bytes.
abbrev greeting : List ReadResult
greeting = again ∷ got (text "GET / HTTP/1.1") ∷ failed ∷ []

read_greeting : read_until_headers greeting [] ≡ some (false, text "GET / HTTP/1.1", [])
unfolding read_until_headers find
read_greeting = refl

read_until_headers_lem_example :
    (length (text "GET / HTTP/1.1") ≤ 65536 + 2048)
    × ((◌≡◌ {A = Bool} false false)
        ⊎ (is_found (find end_of_headers (text "GET / HTTP/1.1")) ≡ true))
read_until_headers_lem_example =
    read_until_headers_lem greeting [] {out = (false, text "GET / HTTP/1.1", [])} (omega arith, tt)
      (omega arith) read_greeting

send_all_lem_example : Ended 3 (send_all (65 * 3 + 66) whole 0 3 0 0)
send_all_lem_example = send_all_lem whole 3 whole-WriteLaw

abbrev get_line : Text
get_line =
    request_line (text "GET") (with_query (text "/status") (some (text "x=1"))) (text "HTTP/1.1")

no_space : contains b' ' (text "GET") ≡ false
unfolding contains
no_space = refl

no_space' : contains b' ' (with_query (text "/status") (some (text "x=1"))) ≡ false
unfolding contains
no_space' = refl

no_mark : contains b'?' (text "/status") ≡ false
unfolding contains
no_mark = refl

no_return : contains b'\r' get_line ≡ false
unfolding contains
no_return = refl

parse_request_line_lem_example :
    let r = parse_request_line (get_line ++ (crlf ++ [])) in
    (r.method ≡ text "GET") × (r.path ≡ text "/status")
parse_request_line_lem_example =
    parse_request_line_lem (text "GET") (text "/status") (text "HTTP/1.1") [] (some (text "x=1"))
      no_space no_space' no_mark no_return

-- `{"data_type": 5}`
abbrev bad_body : Tree
bad_body = obj (field (text "data_type") (int (pos 5)) end)

-- Every body is this one.
abbrev one_json : Json
one_json = record tree_json { parse = λ s. some bad_body }

one_json-StringLaw : StringLaw one_json
one_json-StringLaw = tree_json-StringLaw

-- No client, and nothing waits.
abbrev one_world : World one_json
one_world = record {
  sessions = [];
  channels = record { states = []; clients = [] };
  params = [];
  pipeline = make_pipeline 4;
  publisher = record {
    sent_2d = 0;
    sent_3d = 0;
    sent_sensor = 0;
    dropped_hwm = 0;
    shutdown_sent = 0;
  };
  pair_count = 0;
  frames_produced = 0;
}

-- A request that comes at once.
abbrev peer : Text → Peer
peer path = record {
  tls = true;
  reads = got (text "POST " ++ (path ++ (text " HTTP/1.1" ++ (end_of_headers ++ text "x")))) ∷ [];
  writes = whole;
  received_at = (pos 1, pos 0);
  answered_at = (pos 1, pos 5);
}

activates :
    receive one_json (peer (text "/activate_channel")) ≡ request (text "/activate_channel") bad_body
unfolding receive read_until_headers find parse_request_line to_lower read_rest parse_body stoul
activates = refl

activates_command :
    normalize_command one_json (text "/activate_channel") bad_body ≡ text "activate_channel"
unfolding normalize_command path_command strip_slash strip_api after_prefix after_slash resolve
    alias_map lookup
activates_command = refl

handle_connection_crashes_example :
    handle_connection one_json [] one_world (peer (text "/activate_channel")) ≡ crashed
handle_connection_crashes_example =
    handle_connection_crashes one_json [] one_world (peer (text "/activate_channel"))
      (text "/activate_channel") bad_body one_json-StringLaw activates (inl activates_command) refl
      refl

handle_connection-Left_example :
    Left tree_json (handle_connection tree_json [] world (peer (text "/connect")))
handle_connection-Left_example =
    handle_connection-Left tree_json [] world (peer (text "/connect")) whole-WriteLaw world-WorldInv

-- One connection is admitted, and then `stop` sets both flags.
abbrev one_waits : Pending
one_waits = begin_stopping (end_running (enqueue 7 started).1)

one_waits-Reach : Reach ([] ++ admitted 7 (enqueue 7 started).0 ++ [] ++ []) one_waits
unfolding enqueue
one_waits-Reach =
    later (later (later start (accepts {s = started} 7)) ends_running) (begins_stopping refl)

reach-IsValid_example : IsValid ([] ++ admitted 7 (enqueue 7 started).0 ++ [] ++ []) one_waits
reach-IsValid_example = reach-IsValid one_waits-Reach

waits_ready : is_ready one_waits ≡ true
unfolding enqueue
waits_ready = refl

-- The worker found the predicate false, and `stop` notifies before it blocks.
abbrev unlucky : List Thread
unlucky = worker_turn ∷ stop_turn ∷ []

unlucky_notifying : (run unlucky at_stop).stop ≡ notifying
unfolding run turn
unlucky_notifying = refl

stop_lem_example :
    ((is_deciding (run unlucky at_stop).worker ≡ false)
      × ((run (stop_turn ∷ worker_turn ∷ stop_turn ∷ []) (run unlucky at_stop)).stop ≡ joined))
    ⊎ ((is_deciding (run unlucky at_stop).worker ≡ true)
        × ((run (stop_turn ∷ worker_turn ∷ stop_turn ∷ []) (run unlucky at_stop)).stop ≡ joining))
stop_lem_example = stop_lem unlucky (worker_turn ∷ stop_turn ∷ []) unlucky_notifying refl

http_text-parse_request_line_example :
    let http = http_text success (text "{}") in
    let r = parse_request_line http in
    (r.content_length ≡ 2) × (body_part http r.header_end ≡ text "{}")
http_text-parse_request_line_example =
    http_text-parse_request_line success (text "{}") (omega arith)
