-- ===== src/Commands/Interleaved.antt =====
-- api/CommandHandler.cpp under several worker threads: what any interleaving of commands keeps of the channels, the
-- queues and the parameters.
use sim_vision_sdk.Prelude.{
  ◌≤◌, ◌%◌, length, length-set, ◌≡◌, refl, subst, ap, ◌∙◌, ◌⊎◌, inl, inr, false, Option, none, some,
  List, Text, text_eq, if◌then◌else◌, text-eq, text_eq_iff, arith, Bool-cases,
}
use sim_vision_sdk.Prelude.Map.{lookup, lookup-insert}
use sim_vision_sdk.Json.{Json}
use sim_vision_sdk.Channels.Valid.{
  Inv, start_capture-Inv, stop_capture-Inv, disconnect_client-Inv, activate_channel-Inv,
  deactivate_channel-Inv,
}
use sim_vision_sdk.Types.{DataGroup, visual_2d, visual_3d, sensor_data}
use sim_vision_sdk.Types.Frame.{ChannelFrame}
use sim_vision_sdk.Queue.{Queue}
use sim_vision_sdk.Queue.Threads.{
  Consumer, resting, loaded_tail, loaded_head, took, Threads, pop_step,
}
use sim_vision_sdk.Pipeline.{Pipeline}
use sim_vision_sdk.Parameters.{
  ParamValue, integer, float, enum, Parameter, Parameters, set_value, SetResult, accepted, refused,
}
use sim_vision_sdk.Parameters.SetValue.{SameType, set_value_sound}
use sim_vision_sdk.Parameters.Valid.{IsValid, set_value-IsValid}
use sim_vision_sdk.Commands.Objects.{World}
use sim_vision_sdk.Commands.Program.{after_set}
use sim_vision_sdk.Commands.Workers.{Event, happens, quiet, popped}
use sim_vision_sdk.Commands.Kept.{IsPreserved, interleaved}

module _ (J : Json) where
  -- The ring buffer has a slot for each index below its capacity, which every access takes the remainder by.
  abbrev pub Slots : {A : Type 0} → Queue A → Type 0
  Slots q = (1 ≤ q.capacity) × (length q.buffer ≡ q.capacity)

  abbrev pub AllSlots : {A : Type 0} → Pipeline A → Type 0
  AllSlots p = Slots p.q2d × Slots p.q3d × Slots p.qsensor

  pop_step-Slots :
      {A : Type 0} (s : Threads A) (c : Consumer A) → Slots s.queue → Slots (pop_step s c).queue
  unfolding pop_step
  pop_step-Slots s resting v = v
  pop_step-Slots s (loaded_tail t) v = v
  pop_step-Slots s (loaded_head t h) v =
      ground (arith, v, length-set s.queue.buffer (t % s.queue.capacity) none)
  pop_step-Slots s (took t frame) v = v

  pop-AllSlots :
      (w : World J) (g : DataGroup) (c : Consumer ChannelFrame)
      → AllSlots w.pipeline
      → AllSlots (popped J w g c).pipeline
  pop-AllSlots w visual_2d c v = (pop_step-Slots _ c v.0, v.1, v.2)
  pop-AllSlots w visual_3d c v = (v.0, pop_step-Slots _ c v.1, v.2)
  pop-AllSlots w sensor_data c v = (v.0, v.1, pop_step-Slots _ c v.2)

  -- The invariants of the objects that commands change.
  pub record Core (w : World J) : Type 0 where
    pub counts : Inv w.channels
    pub slots : AllSlots w.pipeline
    pub values : IsValid J w.params

  after_set-Core :
      (w : World J) (name : Text) (x : ParamValue J) (r : SetResult J)
      → set_value J w.params name x ≡ r
      → Core w
      → Core (after_set J w r)
  after_set-Core w name x (refused message) e v = v
  after_set-Core w name x (accepted ps) e v = record {
    counts = v.counts;
    slots = v.slots;
    values = set_value-IsValid J w.params name x v.values e;
  }

  Core-IsPreserved : IsPreserved J Core
  Core-IsPreserved = record {
    connects = λ w c v. record { counts = v.counts; slots = v.slots; values = v.values };
    disconnects = λ w c v. record { counts = v.counts; slots = v.slots; values = v.values };
    starts = λ w c ts v. record {
      counts = start_capture-Inv w.channels c ts v.counts;
      slots = v.slots;
      values = v.values;
    };
    stops = λ w c ts v. record {
      counts = stop_capture-Inv w.channels c ts v.counts;
      slots = v.slots;
      values = v.values;
    };
    leaves = λ w c v. record {
      counts = disconnect_client-Inv w.channels c v.counts;
      slots = v.slots;
      values = v.values;
    };
    activates = λ w t v. record {
      counts = activate_channel-Inv w.channels t v.counts;
      slots = v.slots;
      values = v.values;
    };
    deactivates = λ w t v. record {
      counts = deactivate_channel-Inv w.channels t v.counts;
      slots = v.slots;
      values = v.values;
    };
    pops = λ w g c v. record {
      counts = v.counts;
      slots = pop-AllSlots w g c v.slots;
      values = v.values;
    };
    sets = λ w name x v. after_set-Core w name x _ refl v;
  }

  -- However the calls of any number of commands and the steps of their drains are interleaved, the subscriber counts
  -- agree with the subscriptions, each ring buffer has the slots that its accesses use, and every parameter
  -- has a value that it allows, if that held when no command was running.
  pub interleaved-Core :
      (w : World J) (events : List (Event J)) → Core w → Core (happens J (quiet J w) events).world
  interleaved-Core w events v = interleaved J Core Core-IsPreserved w events v

  -- A name has a parameter in both maps or in neither; the parameter is the same, or it can be written and
  -- differs in its value only, which has the same alternative.
  abbrev pub Evolved : Option (Parameter J) → Option (Parameter J) → Type 0
  Evolved none none = Unit {0}
  Evolved (some p) (some q) =
      (q ≡ p)
      ⊎ ((p.is_readonly ≡ false) × (q ≡ record p { value = q.value }) × SameType J p.value q.value)
  Evolved _ _ = ⊥

  abbrev AllEvolved : Parameters J → Parameters J → Type 0
  AllEvolved ps qs = (n : Text) → Evolved (lookup n ps) (lookup n qs)

  SameType-trans : (a b c : ParamValue J) → SameType J a b → SameType J b c → SameType J a c
  SameType-trans (integer _) (integer _) c h k = k
  SameType-trans (float _) (float _) c h k = k
  SameType-trans (enum _) (enum _) c h k = k
  SameType-trans (integer _) (float _) c h k = elim h [ ]
  SameType-trans (integer _) (enum _) c h k = elim h [ ]
  SameType-trans (float _) (integer _) c h k = elim h [ ]
  SameType-trans (float _) (enum _) c h k = elim h [ ]
  SameType-trans (enum _) (integer _) c h k = elim h [ ]
  SameType-trans (enum _) (float _) c h k = elim h [ ]

  Evolved-refl : (o : Option (Parameter J)) → Evolved o o
  Evolved-refl none = tt
  Evolved-refl (some p) = inl refl

  assign-Evolved :
      (o : Option (Parameter J)) (p : Parameter J) (x : ParamValue J)
      → p.is_readonly ≡ false
      → SameType J p.value x
      → Evolved o (some p)
      → Evolved o (some (record p { value = x }))
  assign-Evolved none p x writable typed v = elim v [ ]
  assign-Evolved (some r) p x writable typed (inl e) =
      subst (λ r. Evolved (some r) (some (record p { value = x }))) e (inr (writable, refl, typed))
  assign-Evolved (some r) p x writable typed (inr (w, e, t)) =
      let set : Parameter J → Parameter J = λ r. record r { value = x } in
      inr (w, ap set e, SameType-trans _ _ _ t typed)

  after_set-Evolved :
      (ps : Parameters J) (w : World J) (name : Text) (x : ParamValue J) (r : SetResult J)
      → set_value J w.params name x ≡ r
      → AllEvolved ps w.params
      → AllEvolved ps (after_set J w r).params
  after_set-Evolved ps w name x (refused message) e v n = v n
  after_set-Evolved ps w name x (accepted qs) e v n =
      let (p, s, q) = set_value_sound J w.params name x e in
      let r : Parameter J = record p { value = x } in
      let now : lookup n qs ≡ (if text_eq name n then some r else lookup n w.params) =
        ap (lookup n) q ∙ lookup-insert name n r w.params in
      elim (Bool-cases (text_eq name n)) [
        | inl same ↦
            subst (Evolved (lookup n ps)) {x = some r} {y = lookup n qs} (ground (arith, now, same))
              (assign-Evolved (lookup n ps) p x s.writable s.typed (
                subst (Evolved (lookup n ps)) {x = lookup n w.params} {y = some p}
                  (subst (λ m. lookup m w.params ≡ some p) ((text_eq_iff name n).0 same) s.found)
                  (v n)))
        | inr diff ↦
            subst (Evolved (lookup n ps)) {x = lookup n w.params} {y = lookup n qs}
              (ground (arith, now, diff)) (v n)
      ]

  -- However the calls of any number of commands and the steps of their drains are interleaved, no parameter appears or goes, one that is
  -- read-only stays as it is, and any other changes in its value only, whose alternative stays the same.
  pub interleaved_types :
      (w : World J) (events : List (Event J)) (n : Text)
      → Evolved (lookup n w.params) (lookup n (happens J (quiet J w) events).world.params)
  interleaved_types w events n =
      interleaved J (λ v. AllEvolved w.params v.params) kept w events
        (λ m. Evolved-refl (lookup m w.params)) n
    where
      kept : IsPreserved J (λ v. AllEvolved w.params v.params)
      kept = record {
        connects = λ v c k. k;
        disconnects = λ v c k. k;
        starts = λ v c ts k. k;
        stops = λ v c ts k. k;
        leaves = λ v c k. k;
        activates = λ v t k. k;
        deactivates = λ v t k. k;
        pops = λ v g c k. k;
        sets = λ v name x k. after_set-Evolved w.params v name x _ refl k;
      }
