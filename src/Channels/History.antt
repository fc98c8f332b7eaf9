-- ===== src/Channels/History.antt =====
-- data/ChannelManager.cpp from its construction on: what its queries answer after any calls.
use sim_vision_sdk.Prelude.{
  ℕ-eq, text-eq, ℕ, ◌≡◌, ◌↔◌, ◌⊎◌, refl, ap, subst, ◌∙◌, Bool, true, false, List, [], ◌∷◌, Text,
}
use sim_vision_sdk.Prelude.Map.{lookup}
use sim_vision_sdk.Prelude.Set.{contains}
use sim_vision_sdk.Types.{DataType, stereo_image, dt_key}
use sim_vision_sdk.Channels.{
  ChannelManager, new, start_capture, stop_capture, disconnect_client, activate_channel,
  deactivate_channel, is_active, any_subscriber,
}
use sim_vision_sdk.Channels.Valid.{
  Inv, new-Inv, start_capture-Inv, stop_capture-Inv, disconnect_client-Inv, activate_channel-Inv,
  deactivate_channel-Inv,
}
use sim_vision_sdk.Channels.Effects.{is_active_iff, any_subscriber_iff}
use sim_vision_sdk.Channels.Abstract.{
  Interest, nothing, starts, stops, leaves, forces_to, interest, methods_refine,
}

-- a call that changes the manager
pub data Call : Type 0 where
  starting : Text → List DataType → Call
  stopping : Text → List DataType → Call
  leaving : Text → Call
  forcing : DataType → Bool → Call

unfoldable pub perform : ChannelManager → Call → ChannelManager
perform cm (starting c ts) = start_capture cm c ts
perform cm (stopping c ts) = stop_capture cm c ts
perform cm (leaving c) = (disconnect_client cm c).0
perform cm (forcing t true) = (activate_channel cm t).0
perform cm (forcing t false) = (deactivate_channel cm t).0

abbrev pub specified : Interest → Call → Interest
specified a (starting c ts) = starts a c ts
specified a (stopping c ts) = stops a c ts
specified a (leaving c) = leaves a c
specified a (forcing t b) = forces_to a t b

unfoldable pub performs : ChannelManager → List Call → ChannelManager
unfolding perform
performs cm [] = cm
performs cm (call ∷ more) = performs (perform cm call) more

abbrev pub specifies : Interest → List Call → Interest
specifies a [] = a
specifies a (call ∷ more) = specifies (specified a call) more

perform-Inv : (cm : ChannelManager) (call : Call) → Inv cm → Inv (perform cm call)
unfolding perform
perform-Inv cm (starting c ts) v = start_capture-Inv cm c ts v
perform-Inv cm (stopping c ts) v = stop_capture-Inv cm c ts v
perform-Inv cm (leaving c) v = disconnect_client-Inv cm c v
perform-Inv cm (forcing t true) v = activate_channel-Inv cm t v
perform-Inv cm (forcing t false) v = deactivate_channel-Inv cm t v

performs-Inv : (cm : ChannelManager) (calls : List Call) → Inv cm → Inv (performs cm calls)
unfolding performs
performs-Inv cm [] v = v
performs-Inv cm (call ∷ more) v = performs-Inv (perform cm call) more (perform-Inv cm call v)

interest-perform :
    (cm : ChannelManager) (call : Call) → interest (perform cm call) ≡ specified (interest cm) call
unfolding perform
interest-perform cm (starting c ts) = (methods_refine cm c ts stereo_image).0
interest-perform cm (stopping c ts) = (methods_refine cm c ts stereo_image).1
interest-perform cm (leaving c) = (methods_refine cm c [] stereo_image).2
interest-perform cm (forcing t true) = (methods_refine cm [] [] t).3
interest-perform cm (forcing t false) = (methods_refine cm [] [] t).4

interest-performs :
    (cm : ChannelManager) (calls : List Call)
    → interest (performs cm calls) ≡ specifies (interest cm) calls
unfolding performs
interest-performs cm [] = refl
interest-performs cm (call ∷ more) =
    interest-performs (perform cm call) more ∙ ap (λ a. specifies a more) (interest-perform cm call)

interest-new : interest new ≡ nothing
unfolding new lookup contains
interest-new = refl

-- After any calls on a new manager, a type is active exactly when by the specification some client wants it
-- or it is forced, and `any_subscriber` holds exactly when some client wants some type.
pub queries_answer :
    (calls : List Call) (t : DataType)
    → let cm = performs new calls in
      let a = specifies nothing calls in
      ((is_active cm t ≡ true)
        ↔ (((c : Text) × (a.wants c (dt_key t) ≡ true)) ⊎ (a.forces (dt_key t) ≡ true)))
      × ((any_subscriber cm ≡ true) ↔ ((c : Text) × (k : ℕ) × (a.wants c k ≡ true)))
queries_answer calls t =
    let cm = performs new calls in
    let v : Inv cm = performs-Inv new calls new-Inv in
    subst
      (λ a.
        ((is_active cm t ≡ true)
          ↔ (((c : Text) × (a.wants c (dt_key t) ≡ true)) ⊎ (a.forces (dt_key t) ≡ true)))
        × ((any_subscriber cm ≡ true) ↔ ((c : Text) × (k : ℕ) × (a.wants c k ≡ true))))
      (interest-performs new calls ∙ ap (λ a. specifies a calls) interest-new)
      (is_active_iff cm t v, any_subscriber_iff cm v)
