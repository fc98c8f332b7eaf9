-- ===== src/Commands/Invariant.antt =====
-- What every command keeps: the invariants of the parts, and that only connected clients have
-- subscriptions.
use sim_vision_sdk.Prelude.{
  ◌≡◌, refl, not, ◌||◌, Option, none, some, Text, text, text-eq, arith, Bool-cases, inl, inr,
}
use sim_vision_sdk.Json.{Json}
use sim_vision_sdk.Types.{DataType, data_type_to_group}
use sim_vision_sdk.Sessions.{is_connected, connect-disconnect}
use sim_vision_sdk.Channels.{activate_channel, deactivate_channel, any_subscriber, group_active}
use sim_vision_sdk.Channels.Valid.{
  Inv, start_capture-Inv, stop_capture-Inv, disconnect_client-Inv, activate_channel-Inv,
  deactivate_channel-Inv,
}
use sim_vision_sdk.Pipeline.Valid.{AllValid, drain-AllValid, drain_group-AllValid}
use sim_vision_sdk.Parameters.{ParamValue, Parameter, set_value, SetResult, accepted, refused, get}
use sim_vision_sdk.Parameters.Valid.{IsValid, set_value-IsValid}
use sim_vision_sdk.Commands.Objects.{World, flush}
use sim_vision_sdk.Commands.Parse.{expand_types}
use sim_vision_sdk.Commands.{
  Result, cmd_connect, cmd_disconnect, cmd_start_capture, cmd_stop_capture, cmd_activate_channel,
  cmd_deactivate_channel, cmd_get_parameter, cmd_set_parameter, set_answer, set_read, set_found,
  set_named, get_found, get_named, read_value, handle, flush_if_idle, drain_if_inactive,
  channel_type, is_nil,
}
use sim_vision_sdk.Commands.Linked.{
  Linked, start_capture-Linked, stop_capture-Linked, disconnect-Linked,
}

module _ (J : Json) where
  pub record WorldInv (w : World J) : Type 0 where
    pub counts : Inv w.channels
    pub linked : Linked w.sessions w.channels
    pub queues : AllValid w.pipeline
    pub values : IsValid J w.params

  -- The state that a command leaves, if it returns.
  abbrev pub Keeps : Result J → Type 0
  Keeps none = Unit {0}
  Keeps (some (w, r)) = WorldInv w

  cmd_connect-Keeps : (w : World J) (c : Text) → WorldInv w → Keeps (cmd_connect J w c)
  unfolding cmd_connect
  cmd_connect-Keeps w c v = elim (Bool-cases (is_connected w.sessions c)) [
    | inl e ↦ rw e v
    | inr e ↦ rw e (record {
      counts = v.counts;
      linked = λ d off. v.linked d (ground (arith, (connect-disconnect w.sessions c d).0));
      queues = v.queues;
      values = v.values;
    })
  ]

  flush_if_idle-WorldInv : (w : World J) → WorldInv w → WorldInv (flush_if_idle J w)
  unfolding flush_if_idle flush
  flush_if_idle-WorldInv w v = elim (Bool-cases (any_subscriber w.channels)) [
    | inl e ↦ rw e v
    | inr e ↦ rw e (record {
      counts = v.counts;
      linked = v.linked;
      queues = drain-AllValid _ (drain-AllValid _ v.queues);
      values = v.values;
    })
  ]

  drain_if_inactive-WorldInv :
      (w : World J) (t : DataType) → WorldInv w → WorldInv (drain_if_inactive J w t)
  unfolding drain_if_inactive
  drain_if_inactive-WorldInv w t v =
      elim (Bool-cases (group_active w.channels (data_type_to_group t))) [
        | inl e ↦ rw e v
        | inr e ↦ rw e (record {
          counts = v.counts;
          linked = v.linked;
          queues = drain_group-AllValid _ (data_type_to_group t) v.queues;
          values = v.values;
        })
      ]

  cmd_disconnect-Keeps : (w : World J) (c : Text) → WorldInv w → Keeps (cmd_disconnect J w c)
  unfolding cmd_disconnect
  cmd_disconnect-Keeps w c v = elim (Bool-cases (is_connected w.sessions c)) [
    | inl e ↦ rw e (
        flush_if_idle-WorldInv _ (record {
          counts = disconnect_client-Inv w.channels c v.counts;
          linked = disconnect-Linked w.sessions w.channels c v.linked;
          queues = v.queues;
          values = v.values;
        }))
    | inr e ↦ rw e v
  ]

  cmd_start_capture-Keeps :
      (w : World J) (body : J.Value) (c : Text) → WorldInv w → Keeps (cmd_start_capture J w body c)
  unfolding cmd_start_capture
  cmd_start_capture-Keeps w body c v = elim (Bool-cases (is_connected w.sessions c)) [
    | inr e ↦ rw e v
    | inl e ↦ elim (Bool-cases (is_nil J (expand_types J body))) [
      | inl f ↦ rw (e, f) v
      | inr f ↦
          rw (e, f)
            (record {
              counts = start_capture-Inv w.channels c (expand_types J body) v.counts;
              linked =
                  start_capture-Linked w.sessions w.channels c (expand_types J body) e v.linked;
              queues = v.queues;
              values = v.values;
            })
    ]
  ]

  cmd_stop_capture-Keeps :
      (w : World J) (body : J.Value) (c : Text) → WorldInv w → Keeps (cmd_stop_capture J w body c)
  unfolding cmd_stop_capture
  cmd_stop_capture-Keeps w body c v = elim (Bool-cases (is_nil J (expand_types J body))) [
    | inl f ↦ rw f v
    | inr f ↦ rw f (
        flush_if_idle-WorldInv _ (record {
          counts = stop_capture-Inv w.channels c (expand_types J body) v.counts;
          linked = stop_capture-Linked w.sessions w.channels c (expand_types J body) v.linked;
          queues = v.queues;
          values = v.values;
        }))
  ]

  cmd_activate_channel-Keeps :
      (w : World J) (body : J.Value) → WorldInv w → Keeps (cmd_activate_channel J w body)
  unfolding cmd_activate_channel activate_channel
  cmd_activate_channel-Keeps w body v = go (channel_type J body) refl
    where
      go :
          (o : Option (Option DataType))
          → channel_type J body ≡ o
          → Keeps (cmd_activate_channel J w body)
      go none e = rw (e, cmd_activate_channel) tt
      go (some none) e = rw (e, cmd_activate_channel) v
      go (some (some t)) e =
          rw (e, cmd_activate_channel)
            (record {
              counts = activate_channel-Inv w.channels t v.counts;
              linked = v.linked;
              queues = v.queues;
              values = v.values;
            })

  cmd_deactivate_channel-Keeps :
      (w : World J) (body : J.Value) → WorldInv w → Keeps (cmd_deactivate_channel J w body)
  unfolding cmd_deactivate_channel deactivate_channel
  cmd_deactivate_channel-Keeps w body v = go (channel_type J body) refl
    where
      go :
          (o : Option (Option DataType))
          → channel_type J body ≡ o
          → Keeps (cmd_deactivate_channel J w body)
      go none e = rw (e, cmd_deactivate_channel) tt
      go (some none) e = rw (e, cmd_deactivate_channel) v
      go (some (some t)) e =
          rw (e, cmd_deactivate_channel)
            (drain_if_inactive-WorldInv _ t (record {
              counts = deactivate_channel-Inv w.channels t v.counts;
              linked = v.linked;
              queues = v.queues;
              values = v.values;
            }))

  cmd_get_parameter-Keeps :
      (w : World J) (body : J.Value) → WorldInv w → Keeps (cmd_get_parameter J w body)
  unfolding cmd_get_parameter
  cmd_get_parameter-Keeps w body v = elim (Bool-cases (J.contains body (text "name"))) [
    | inr e ↦ rw e v
    | inl e ↦ rw e (named (J.get_string (J.at body (text "name"))))
  ]
    where
      found : (o : Option (Parameter J)) → Keeps (get_found J w o)
      found none = v
      found (some p) = v

      named : (o : Option Text) → Keeps (get_named J w o)
      named none = tt
      named (some name) = found (get J w.params name)

  set_answer-Keeps :
      (w : World J) (name : Text) (p : Parameter J) (x : ParamValue J) (r : SetResult J)
      → set_value J w.params name x ≡ r
      → WorldInv w
      → Keeps (set_answer J w name p x r)
  set_answer-Keeps w name p x (refused err) e v = v
  set_answer-Keeps w name p x (accepted ps) e v = record {
    counts = v.counts;
    linked = v.linked;
    queues = v.queues;
    values = set_value-IsValid J w.params name x v.values e;
  }

  cmd_set_parameter-Keeps :
      (w : World J) (body : J.Value) → WorldInv w → Keeps (cmd_set_parameter J w body)
  unfolding cmd_set_parameter
  cmd_set_parameter-Keeps w body v =
      elim (Bool-cases
        (not (J.contains body (text "name")) || not (J.contains body (text "value")))) [
          | inl e ↦ rw e v
          | inr e ↦ rw e (named (J.get_string (J.at body (text "name"))))
        ]
    where
      read :
          (name : Text) (p : Parameter J) (o : Option (ParamValue J))
          → Keeps (set_read J w name p o)
      read name p none = tt
      read name p (some x) = set_answer-Keeps w name p x (set_value J w.params name x) refl v

      found : (name : Text) (o : Option (Parameter J)) → Keeps (set_found J w body name o)
      found name none = v
      found name (some p) = read name p (read_value J p.value (J.at body (text "value")))

      named : (o : Option Text) → Keeps (set_named J w body o)
      named none = tt
      named (some name) = found name (get J w.params name)

  -- Whatever a command returns, it keeps the subscriber counts, the queues and the parameters' values valid,
  -- and only connected clients subscribed, if that held before.
  pub handle-WorldInv :
      (w : World J) (command : Text) (body : J.Value) (client_id : Text)
      → WorldInv w
      → Keeps (handle J w command body client_id)
  unfolding handle
  handle-WorldInv w command body c v = ground (
    arith,
    cmd_connect-Keeps w c v,
    cmd_disconnect-Keeps w c v,
    cmd_start_capture-Keeps w body c v,
    cmd_stop_capture-Keeps w body c v,
    cmd_activate_channel-Keeps w body v,
    cmd_deactivate_channel-Keeps w body v,
    cmd_get_parameter-Keeps w body v,
    cmd_set_parameter-Keeps w body v,
    v,
  )
