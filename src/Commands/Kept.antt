-- ===== src/Commands/Kept.antt =====
-- api/CommandHandler.cpp under several worker threads: what each call of a command keeps, every interleaving keeps.
use sim_vision_sdk.Prelude.{
  ℕ, zero, suc, Option, none, some, List, [], ◌∷◌, ◌++◌, Text, text, arith, Bool, true, false,
  if◌then◌else◌,
}
use sim_vision_sdk.Types.Frame.{ChannelFrame}
use sim_vision_sdk.Queue.Threads.{Consumer}
use sim_vision_sdk.Json.{Json}
use sim_vision_sdk.Response.{Response, from_error, already_init, error, invalid_param}
use sim_vision_sdk.Types.{DataType, DataGroup}
use sim_vision_sdk.Parameters.{ParamValue, Parameter, set_value, get}
use sim_vision_sdk.Sessions.{connect, disconnect}
use sim_vision_sdk.Channels.{
  start_capture, stop_capture, disconnect_client, activate_channel, deactivate_channel,
}
use sim_vision_sdk.Commands.Objects.{World}
use sim_vision_sdk.Commands.Parse.{expand_types}
use sim_vision_sdk.Commands.Report.{check_status, list_channels, list_parameters}
use sim_vision_sdk.Commands.{read_value, channel_type}
use sim_vision_sdk.Commands.Program.{
  Program, halt, call, flush_then, drain_program, popping, drain_group_then, activate_read,
  deactivate_read, set_named_program, set_found_program, set_read_program, get_named_program,
  report, start_checked, after_set, connect_program, disconnect_program, start_capture_program,
  stop_capture_program, activate_program, deactivate_program, set_parameter_program,
  get_parameter_program, program,
}
use sim_vision_sdk.Commands.Workers.{
  Site, Event, begin, next, popped, pop_of, finds_none, advance, advance_at, happen, happens, quiet,
}

module _ (J : Json) where
  -- What every call that a command makes, and every step of its drains, keeps of the objects.
  pub record IsPreserved (P : World J → Type 0) : Type 0 where
    pub connects :
        (w : World J) (c : Text) → P w → P (record w { sessions = (connect w.sessions c).0 })
    pub disconnects :
        (w : World J) (c : Text) → P w → P (record w { sessions = (disconnect w.sessions c).0 })
    pub starts :
        (w : World J) (c : Text) (ts : List DataType)
        → P w
        → P (record w { channels = start_capture w.channels c ts })
    pub stops :
        (w : World J) (c : Text) (ts : List DataType)
        → P w
        → P (record w { channels = stop_capture w.channels c ts })
    pub leaves :
        (w : World J) (c : Text)
        → P w
        → P (record w { channels = (disconnect_client w.channels c).0 })
    pub activates :
        (w : World J) (t : DataType)
        → P w
        → P (record w { channels = (activate_channel w.channels t).0 })
    pub deactivates :
        (w : World J) (t : DataType)
        → P w
        → P (record w { channels = (deactivate_channel w.channels t).0 })
    pub pops : (w : World J) (g : DataGroup) (c : Consumer ChannelFrame) → P w → P (popped J w g c)
    pub sets :
        (w : World J) (name : Text) (x : ParamValue J)
        → P w
        → P (after_set J w (set_value J w.params name x))

  module _ (P : World J → Type 0) (keeps : IsPreserved P) where
    -- Every call and every step of a drain that a program can make keeps the invariants.
    data Keeping : Program J → Type 0 where
      halts : {r : Option (Response J)} → Keeping (halt r)
      calls :
          {f : World J → World J} {rest : World J → Program J}
          → ((w : World J) → P w → P (f w))
          → ((w : World J) → Keeping (rest w))
          → Keeping (call f rest)
      pops :
          {g : DataGroup} {c : Consumer ChannelFrame} {rest : Program J}
          → Keeping rest
          → Keeping (popping g c rest)

    data AllKeeping : List (Program J) → Type 0 where
      no_worker : AllKeeping []
      one_more :
          {p : Program J} {ps : List (Program J)} → Keeping p → AllKeeping ps → AllKeeping (p ∷ ps)

    Keeping-if : (p q : Program J) (b : Bool) → Keeping p → Keeping q → Keeping (if b then p else q)
    Keeping-if p q true h k = h
    Keeping-if p q false h k = k

    drain-Keeping : (p : Program J) → Keeping p → Keeping (drain_program J p)
    drain-Keeping p h = pops (pops (pops h))

    flush-Keeping : (p : Program J) → Keeping p → Keeping (flush_then J p)
    flush-Keeping p h =
        calls (λ w v. v) (λ w. Keeping-if _ _ _ h (drain-Keeping _ (drain-Keeping p h)))

    connect-Keeping : (c : Text) → Keeping (connect_program J c)
    unfolding connect_program
    connect-Keeping c =
        calls (λ w v. v)
          (λ w. Keeping-if _ _ _ halts (calls (λ w. keeps.connects w c) (λ _. halts)))

    disconnect-Keeping : (c : Text) → Keeping (disconnect_program J c)
    unfolding disconnect_program
    disconnect-Keeping c =
        calls (λ w v. v)
          (λ w. Keeping-if _ _ _ halts (
            calls (λ w. keeps.leaves w c)
              (λ _. calls (λ w. keeps.disconnects w c) (λ _. flush-Keeping _ halts))))

    start_checked-Keeping : (body : J.Value) (c : Text) → Keeping (start_checked J body c)
    start_checked-Keeping body c =
        Keeping-if _ _ _ halts (calls (λ w. keeps.starts w c (expand_types J body)) (λ _. halts))

    start_capture-Keeping : (body : J.Value) (c : Text) → Keeping (start_capture_program J body c)
    unfolding start_capture_program
    start_capture-Keeping body c =
        calls (λ w v. v)
          (λ w. Keeping-if _ (start_checked J body c) _ halts (start_checked-Keeping body c))

    stop_capture-Keeping : (body : J.Value) (c : Text) → Keeping (stop_capture_program J body c)
    unfolding stop_capture_program
    stop_capture-Keeping body c =
        Keeping-if _ _ _ halts
          (calls (λ w. keeps.stops w c (expand_types J body)) (λ _. flush-Keeping _ halts))

    activate-Keeping : (o : Option (Option DataType)) → Keeping (activate_read J o)
    activate-Keeping none = halts
    activate-Keeping (some none) = halts
    activate-Keeping (some (some t)) = calls (λ w. keeps.activates w t) (λ _. halts)

    drain_group-Keeping :
        (t : DataType) (p : Program J) → Keeping p → Keeping (drain_group_then J t p)
    drain_group-Keeping t p h = calls (λ w v. v) (λ w. Keeping-if _ _ _ h (pops h))

    deactivate-Keeping : (o : Option (Option DataType)) → Keeping (deactivate_read J o)
    deactivate-Keeping none = halts
    deactivate-Keeping (some none) = halts
    deactivate-Keeping (some (some t)) =
        calls (λ w. keeps.deactivates w t) (λ _. drain_group-Keeping t _ halts)

    set_parameter-Keeping : (body : J.Value) → Keeping (set_parameter_program J body)
    unfolding set_parameter_program
    set_parameter-Keeping body =
        Keeping-if _ _ _ halts (named (J.get_string (J.at body (text "name"))))
      where
        read :
            (name : Text) (p : Parameter J) (o : Option (ParamValue J))
            → Keeping (set_read_program J name p o)
        read name p none = halts
        read name p (some x) = calls (λ w. keeps.sets w name x) (λ _. halts)

        found : (name : Text) (o : Option (Parameter J)) → Keeping (set_found_program J body name o)
        found name none = halts
        found name (some p) = read name p (read_value J p.value (J.at body (text "value")))

        named : (o : Option Text) → Keeping (set_named_program J body o)
        named none = halts
        named (some name) = calls (λ w v. v) (λ w. found name (get J w.params name))

    get_parameter-Keeping : (body : J.Value) → Keeping (get_parameter_program J body)
    unfolding get_parameter_program
    get_parameter-Keeping body =
        Keeping-if _ _ _ halts (named (J.get_string (J.at body (text "name"))))
      where
        named : (o : Option Text) → Keeping (get_named_program J o)
        named none = halts
        named (some name) = calls (λ w v. v) (λ _. halts)

    report-Keeping : (f : World J → Response J) → Keeping (report J f)
    report-Keeping f = calls (λ w v. v) (λ _. halts)

    program-Keeping :
        (command : Text) (body : J.Value) (c : Text) → Keeping (program J command body c)
    unfolding program activate_program deactivate_program
    program-Keeping command body c = ground (
      arith,
      connect-Keeping c,
      disconnect-Keeping c,
      start_capture-Keeping body c,
      stop_capture-Keeping body c,
      activate-Keeping (channel_type J body),
      deactivate-Keeping (channel_type J body),
      report-Keeping (check_status J),
      report-Keeping (list_channels J),
      report-Keeping (list_parameters J),
      get_parameter-Keeping body,
      set_parameter-Keeping body,
      halts {r = some (from_error J already_init (text "Already initialized"))},
      halts {r = some (from_error J error (text "Not permitted via API"))},
      halts {r = some (from_error J invalid_param (text "unknown command: " ++ command))},
    )

    AllKeeping-snoc :
        (ps : List (Program J)) (p : Program J)
        → AllKeeping ps
        → Keeping p
        → AllKeeping (ps ++ p ∷ [])
    AllKeeping-snoc [] p no_worker k = one_more k no_worker
    AllKeeping-snoc (q ∷ ps) p (one_more h hs) k = one_more h (AllKeeping-snoc ps p hs k)

    advance_at-kept :
        (i : ℕ) (ps : List (Program J)) (w : World J)
        → AllKeeping ps
        → P w
        → P (advance_at J i ps w).0 × AllKeeping (advance_at J i ps w).1
    unfolding advance_at advance
    advance_at-kept i [] w h v = (v, no_worker)
    advance_at-kept zero (halt r ∷ ps) w h v = (v, h)
    advance_at-kept zero (call f rest ∷ ps) w (one_more (calls h k) hs) v =
        (h w v, one_more (k w) hs)
    advance_at-kept zero (popping g c rest ∷ ps) w (one_more (pops h) hs) v = (
      keeps.pops w g c v,
      one_more
          (Keeping-if rest (popping g (pop_of J w g c).consumer rest) (finds_none J c) h (pops h))
          hs,
    )
    advance_at-kept (suc i) (p ∷ ps) w (one_more h hs) v =
        let (v', hs') = advance_at-kept i ps w hs v in (v', one_more h hs')

    happens-kept :
        (s : Site J) (events : List (Event J))
        → AllKeeping s.workers
        → P s.world
        → P (happens J s events).world
    unfolding happens happen
    happens-kept s [] h v = v
    happens-kept s (begin command body c ∷ more) h v =
        happens-kept (happen J s (begin command body c)) more
          (AllKeeping-snoc s.workers _ h (program-Keeping command body c)) v
    happens-kept s (next i ∷ more) h v =
        let (v', h') = advance_at-kept i s.workers s.world h v in
        happens-kept (happen J s (next i)) more h' v'

    -- However the calls of any number of commands are interleaved, what each of them keeps is kept.
    pub interleaved :
        (w : World J) (events : List (Event J)) → P w → P (happens J (quiet J w) events).world
    interleaved w events v = happens-kept (quiet J w) events no_worker v
