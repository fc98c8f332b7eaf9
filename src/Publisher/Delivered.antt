-- ===== src/Publisher/Delivered.antt =====
-- What the sockets have accepted after a round of the publisher's loop in which no frame was dropped: for
-- every group the messages of its frames, in their order.
use sim_vision_sdk.Prelude.{
  ℕ, ◌+◌, ◌^◌, ◌<◌, ◌≡◌, ◌⊎◌, inl, inr, refl, sym, subst, ap, ap₂, ◌∙◌, Bool, true, Option, none,
  some, List, [], ◌∷◌, ◌++◌, Text, if◌then◌else◌, arith, length, append-nil, append_assoc,
}
use sim_vision_sdk.Prelude.Int.{ℤ}
use sim_vision_sdk.Json.{Json}
use sim_vision_sdk.Zmq.{Zmq, SendLaw}
use sim_vision_sdk.Types.{DataGroup, visual_2d, visual_3d, sensor_data, group_eq}
use sim_vision_sdk.Types.Frame.{ChannelFrame}
use sim_vision_sdk.Publisher.{PublisherStats, header_json}
use sim_vision_sdk.Publisher.Wire.{wire, payloads, send_multipart_lem}
use sim_vision_sdk.Publisher.Running.{
  PerGroup, of_group, put_group, Publisher, send_group, send_frames,
}
use sim_vision_sdk.Publisher.Counted.{
  is_open, put_group-open, group-socket, count_sent-dropped, HasHeader, AllHeaders,
}

of_group-put_group :
    {A : Type 0} (p : PerGroup A) (g h : DataGroup) (a : A)
    → of_group (put_group p g a) h ≡ (if group_eq g h then a else of_group p h)
of_group-put_group p visual_2d visual_2d a = refl
of_group-put_group p visual_2d visual_3d a = refl
of_group-put_group p visual_2d sensor_data a = refl
of_group-put_group p visual_3d visual_2d a = refl
of_group-put_group p visual_3d visual_3d a = refl
of_group-put_group p visual_3d sensor_data a = refl
of_group-put_group p sensor_data visual_2d a = refl
of_group-put_group p sensor_data visual_3d a = refl
of_group-put_group p sensor_data sensor_data a = refl

module _ (Z : Zmq) where
  abbrev accepted_by : Option Z.Socket → List (List ℕ × Bool)
  accepted_by none = []
  accepted_by (some s) = Z.parts s

  -- What the socket of a group has accepted.
  abbrev pub on_wire : Publisher Z → DataGroup → List (List ℕ × Bool)
  on_wire p g = accepted_by (of_group p.sockets g)

  grown :
      (p : Publisher Z) (g : DataGroup) (s s' : Z.Socket) (message : List (List ℕ × Bool))
      → of_group p.sockets g ≡ some s
      → Z.parts s' ≡ Z.parts s ++ message
      → Z.parts s' ≡ on_wire p g ++ message
  grown p g s s' message e q = q ∙ ap (λ o. accepted_by o ++ message) (sym e)

  on_wire-put_group :
      (p : Publisher Z) (g h : DataGroup) (s s' : Z.Socket) (st : PublisherStats)
      (message : List (List ℕ × Bool))
      → of_group p.sockets g ≡ some s
      → Z.parts s' ≡ Z.parts s ++ message
      → on_wire (record p { sockets = put_group p.sockets g (some s'); stats = st }) h
        ≡ on_wire p h ++ (if group_eq g h then message else [])
  on_wire-put_group p visual_2d visual_2d s s' st message e q = grown p visual_2d s s' message e q
  on_wire-put_group p visual_2d visual_3d s s' st message e q =
      sym (append-nil (on_wire p visual_3d))
  on_wire-put_group p visual_2d sensor_data s s' st message e q =
      sym (append-nil (on_wire p sensor_data))
  on_wire-put_group p visual_3d visual_2d s s' st message e q =
      sym (append-nil (on_wire p visual_2d))
  on_wire-put_group p visual_3d visual_3d s s' st message e q = grown p visual_3d s s' message e q
  on_wire-put_group p visual_3d sensor_data s s' st message e q =
      sym (append-nil (on_wire p sensor_data))
  on_wire-put_group p sensor_data visual_2d s s' st message e q =
      sym (append-nil (on_wire p visual_2d))
  on_wire-put_group p sensor_data visual_3d s s' st message e q =
      sym (append-nil (on_wire p visual_3d))
  on_wire-put_group p sensor_data sensor_data s s' st message e q =
      grown p sensor_data s s' message e q

  -- The message of a frame with this header, if there is one.
  abbrev message_with : Option Text → ChannelFrame → List (List ℕ × Bool)
  message_with none frame = []
  message_with (some header) frame = wire (header ∷ payloads frame.bundles)

  module _ (J : Json) (law : SendLaw Z) where
    -- A frame's message: its header, and its payloads.
    abbrev pub message : Text → ChannelFrame → ℤ × ℤ → List (List ℕ × Bool)
    message pub_id frame (sec, nsec) =
        message_with (J.dump (header_json J pub_id frame sec nsec)) frame

    -- The messages of the frames of a group, one after the other.
    abbrev pub messages : Text → DataGroup → List (ChannelFrame × (ℤ × ℤ)) → List (List ℕ × Bool)
    messages pub_id g [] = []
    messages pub_id g ((frame, now) ∷ more) =
        (if group_eq frame.group g then message pub_id frame now else []) ++ messages pub_id g more

    -- What one frame leaves, seen from a group: its message is sent as a whole, or a drop is counted.
    abbrev Passed : Publisher Z → ChannelFrame → ℤ × ℤ → DataGroup → Publisher Z → Type 0
    Passed p frame now g p' =
        (is_open Z p' ≡ true)
        × (p'.pub_id ≡ p.pub_id)
        × (((p'.stats.dropped_hwm ≡ p.stats.dropped_hwm)
              × (on_wire p' g
                  ≡ on_wire p g
                    ++ (if group_eq frame.group g then message p.pub_id frame now else [])))
            ⊎ (p'.stats.dropped_hwm ≡ p.stats.dropped_hwm + 1))

    send_group-Passed :
        (p : Publisher Z) (frame : ChannelFrame) (now : ℤ × ℤ) (g : DataGroup)
        → is_open Z p ≡ true
        → HasHeader Z J p.pub_id frame now
        → p.stats.dropped_hwm + 1 < 2 ^ 64
        → (p' : Publisher Z) × (send_group Z J p frame now ≡ some p') × Passed p frame now g p'
    unfolding send_group
    send_group-Passed p frame (sec, nsec) g up (header, dumped) lt =
        let (s, e) = group-socket Z p frame.group up in
        let (s', st', ok, sent, counted) =
          send_multipart_lem Z law J p.pub_id s p.stats frame sec nsec header dumped in
        (
          record p { sockets = put_group p.sockets frame.group (some s'); stats = st' },
          simp (e, sent, send_group) refl,
          (
            put_group-open Z p frame.group s' st' up,
            refl,
            elim counted [
              | inl (_, q, same) ↦ inl (
                ap (λ st. st.dropped_hwm) same ∙ count_sent-dropped Z frame.group p.stats,
                on_wire-put_group p frame.group g s s' st' _ e
                    (q ∙ ap (λ o. Z.parts s ++ message_with o frame) (sym dumped)),
              )
              | inr (_, same, _) ↦ inr (ap (λ st. st.dropped_hwm) same ∙ ground (arith, lt))
            ],
          ),
        )

    -- If a failed send queues nothing and the headers of the frames can be dumped, then with all sockets open and the count of
    -- drops far from 2 ^ 64 the loop over the frames of a round returns; a drop was counted, or the socket of
    -- each group has accepted, after what it had, just the messages of the group's frames in their order.
    pub send_frames_delivers :
        (p : Publisher Z) (frames : List (ChannelFrame × (ℤ × ℤ))) (g : DataGroup)
        → is_open Z p ≡ true
        → AllHeaders Z J p.pub_id frames
        → p.stats.dropped_hwm + length frames < 2 ^ 64
        → (p' : Publisher Z) × (send_frames Z J p frames ≡ some p')
          × ((p.stats.dropped_hwm < p'.stats.dropped_hwm)
              ⊎ ((p'.stats.dropped_hwm ≡ p.stats.dropped_hwm)
                  × (on_wire p' g ≡ on_wire p g ++ messages p.pub_id g frames)))
    unfolding send_frames
    send_frames_delivers p [] g up headers lt =
        (p, refl, inr (refl, sym (append-nil (on_wire p g))))
    send_frames_delivers p ((frame, now) ∷ more) g up (header, headers) lt =
        let (p', e, (up', same, passed)) =
          send_group-Passed p frame now g up header (omega (arith, lt)) in
        let room : p'.stats.dropped_hwm + length more < 2 ^ 64 = elim passed [
          | inl (d, _) ↦ omega (arith, lt, d)
          | inr d ↦ omega (arith, lt, d)
        ] in
        let (p'', e', rest) =
          send_frames_delivers p' more g up' (subst (λ i. AllHeaders Z J i more) (sym same) headers)
            room in
        (p'', rw (e, send_frames) e', joined p' p'' passed rest same)
      where
        joined :
            (p' p'' : Publisher Z)
            → ((p'.stats.dropped_hwm ≡ p.stats.dropped_hwm)
                × (on_wire p' g
                    ≡ on_wire p g
                      ++ (if group_eq frame.group g then message p.pub_id frame now else [])))
              ⊎ (p'.stats.dropped_hwm ≡ p.stats.dropped_hwm + 1)
            → (p'.stats.dropped_hwm < p''.stats.dropped_hwm)
              ⊎ ((p''.stats.dropped_hwm ≡ p'.stats.dropped_hwm)
                  × (on_wire p'' g ≡ on_wire p' g ++ messages p'.pub_id g more))
            → p'.pub_id ≡ p.pub_id
            → (p.stats.dropped_hwm < p''.stats.dropped_hwm)
              ⊎ ((p''.stats.dropped_hwm ≡ p.stats.dropped_hwm)
                  × (on_wire p'' g ≡ on_wire p g ++ messages p.pub_id g ((frame, now) ∷ more)))
        joined p' p'' (inr d) (inl lt') same = inl (omega (arith, d))
        joined p' p'' (inr d) (inr (d', _)) same = inl (omega (arith, d, d'))
        joined p' p'' (inl (d, _)) (inl lt') same = inl (omega (arith, d))
        joined p' p'' (inl (d, w)) (inr (d', w')) same = inr (
          d' ∙ d,
          w'
              ∙ ap₂ (λ x i. x ++ messages i g more) w same
              ∙ append_assoc (on_wire p g) _ (messages p.pub_id g more),
        )
