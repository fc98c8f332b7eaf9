-- ===== src/Sessions.antt =====
-- api/SessionManager.h and api/SessionManager.cpp: the set of connected client ids.
use sim_vision_sdk.Prelude.{
  ℕ, ◌≡◌, refl, Bool, false, not, ◌||◌, List, Text, text_eq, text-eq, length, if◌then◌else◌,
}
use sim_vision_sdk.Prelude.Set
use sim_vision_sdk.Prelude.Set.{contains, contains-insert, contains-erase}

abbrev pub Sessions : Type 0
Sessions = List Text

-- The result says whether the client is newly connected.
unfoldable pub connect : Sessions → Text → Sessions × Bool
connect sessions client_id = (Set.insert client_id sessions, not (contains client_id sessions))

unfoldable pub disconnect : Sessions → Text → Sessions × Bool
disconnect sessions client_id = (Set.erase client_id sessions, contains client_id sessions)

unfoldable pub is_connected : Sessions → Text → Bool
is_connected sessions client_id = contains client_id sessions

unfoldable pub session_count : Sessions → ℕ
session_count sessions = length sessions

-- `connect` connects the client and no other, `disconnect` disconnects it and no other, and their results
-- say whether that changed anything.
pub connect-disconnect :
    (s : Sessions) (c d : Text)
    → (is_connected (connect s c).0 d ≡ (text_eq c d || is_connected s d))
      × (is_connected (disconnect s c).0 d ≡ (if text_eq c d then false else is_connected s d))
      × ((connect s c).1 ≡ not (is_connected s c))
      × ((disconnect s c).1 ≡ is_connected s c)
unfolding connect disconnect is_connected
connect-disconnect s c d = (contains-insert c d s, contains-erase c d s, refl, refl)
