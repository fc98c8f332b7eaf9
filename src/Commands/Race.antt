-- ===== src/Commands/Race.antt =====
-- api/CommandHandler.cpp: `start_capture` tests the session in one call and subscribes in another.
use sim_vision_sdk.Prelude.{
  ℕ, ◌≡◌, refl, ap, ◌∙◌, true, false, List, [], ◌∷◌, Text, text, text_eq, Bool, if◌then◌else◌,
  text-eq, text_eq_iff,
}
use sim_vision_sdk.Json.{Json}
use sim_vision_sdk.Sessions.{is_connected, disconnect, connect-disconnect}
use sim_vision_sdk.Channels.{start_capture, disconnect_client}
use sim_vision_sdk.Channels.Effects.{subscribed, among, start_capture_lem, disconnect_client_lem}
use sim_vision_sdk.Commands.Objects.{World}
use sim_vision_sdk.Commands.Parse.{expand_types}
use sim_vision_sdk.Commands.{is_nil}
use sim_vision_sdk.Commands.Program.{program, start_capture_program, disconnect_program}
use sim_vision_sdk.Commands.Workers.{
  Event, begin, next, quiet, happens, happen, advance_at, advance,
}

module _ (J : Json) where
  -- One worker tests the session for `start_capture`; another then runs `disconnect` of the same client until
  -- its session is gone; the first subscribes.
  abbrev pub race : J.Value → J.Value → Text → List (Event J)
  race body other c =
      begin (text "start_capture") body c
      ∷ begin (text "disconnect") other c
      ∷ next 0
      ∷ next 1
      ∷ next 1
      ∷ next 1
      ∷ next 0
      ∷ []

  -- what the three calls of `disconnect` and then `start_capture` leave
  abbrev raced : World J → J.Value → Text → World J
  raced w body c = record w {
    channels = start_capture (disconnect_client w.channels c).0 c (expand_types J body);
    sessions = (disconnect w.sessions c).0;
  }

  race_lem :
      (w : World J) (body other : J.Value) (c : Text)
      → is_connected w.sessions c ≡ true
      → is_nil J (expand_types J body) ≡ false
      → (happens J (quiet J w) (race body other c)).world ≡ raced w body c
  unfolding happens happen advance_at advance program start_capture_program disconnect_program
  race_lem w body other c on some_type = rw (on, some_type, happens) refl

  -- Let one worker begin `start_capture` of a connected client, with some type, and another `disconnect` of the same
  -- client. If the first tests the session, the second makes its three calls as far as the end of the session, and
  -- then the first subscribes, with no other call in between, then the client is not connected and is subscribed
  -- to just the types it named.
  pub subscribed_after_disconnect :
      (w : World J) (body other : J.Value) (c : Text) (k : ℕ)
      → is_connected w.sessions c ≡ true
      → is_nil J (expand_types J body) ≡ false
      → let w' = (happens J (quiet J w) (race body other c)).world in
        (is_connected w'.sessions c ≡ false)
        × (subscribed w'.channels c k ≡ among k (expand_types J body))
  subscribed_after_disconnect w body other c k on some_type =
      let same = (text_eq_iff c c).1 refl in
      let gone = (disconnect_client w.channels c).0 in
      rw (race_lem w body other c on some_type) (
        (connect-disconnect w.sessions c c).1 ∙ rw same refl,
        start_capture_lem gone c c (expand_types J body) k
            ∙ rw same (rw (nothing _ (disconnect_client_lem w.channels c c k).0) refl),
      )
    where
      nothing : {a : Bool} (b : Bool) → a ≡ (if text_eq c c then false else b) → a ≡ false
      nothing b e = e ∙ ap (λ x. if x then false else b) ((text_eq_iff c c).1 refl)
