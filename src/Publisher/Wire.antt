-- ===== src/Publisher/Wire.antt =====
-- What a socket has accepted after a frame was sent, or could not be sent in full.
use sim_vision_sdk.Prelude.{
  ℕ, suc, ◌<◌, ◌≡◌, refl, sym, ◌⊎◌, inl, inr, Bool, true, false, some, List, [], ◌∷◌, ◌++◌, Text,
  arith, length, take, append-nil, append_assoc,
}
use sim_vision_sdk.Prelude.Int.{ℤ}
use sim_vision_sdk.Json.{Json}
use sim_vision_sdk.Zmq.{Zmq, SendLaw}
use sim_vision_sdk.Types.Frame.{DataBundle, ChannelFrame}
use sim_vision_sdk.Publisher.{
  PublisherStats, count_sent, count_dropped, has_more, send_frame, send_payloads, send_parts,
  send_multipart, header_json,
}

-- The parts of one multipart message: all but the last announce another.
abbrev pub wire : List (List ℕ) → List (List ℕ × Bool)
wire [] = []
wire (part ∷ more) = (part, has_more more) ∷ wire more

-- The payloads of a frame.
abbrev pub payloads : List DataBundle → List (List ℕ)
payloads [] = []
payloads (b ∷ more) = b.bytes ∷ payloads more

has_more-payloads : (bs : List DataBundle) → has_more (payloads bs) ≡ has_more bs
has_more-payloads [] = refl
has_more-payloads (b ∷ bs) = refl

module _ (Z : Zmq) (law : SendLaw Z) where
  open Z use {Socket, parts}

  send_frame_lem :
      (s : Socket) (bytes : List ℕ) (more keep : Bool)
      → let (s', ok) = send_frame Z s bytes more keep in
        ((ok ≡ true) × (parts s' ≡ parts s ++ (bytes, more) ∷ []))
        ⊎ ((ok ≡ false) × (parts s' ≡ parts s))
  unfolding send_frame
  send_frame_lem s bytes more keep = ground (arith, law s bytes more)

  -- The loop sends every payload, or stops short of the last one.
  send_payloads_lem :
      (s : Socket) (bs : List DataBundle)
      → let (s', ok) = send_payloads Z s bs in
        ((ok ≡ true) × (parts s' ≡ parts s ++ wire (payloads bs)))
        ⊎ ((ok ≡ false)
            × ((n : ℕ) × (n < length (wire (payloads bs)))
                × (parts s' ≡ parts s ++ take n (wire (payloads bs)))))
  unfolding send_payloads
  send_payloads_lem s [] = inl (refl, sym (append-nil (parts s)))
  send_payloads_lem s (b ∷ bs) = elim (send_frame_lem s b.bytes (has_more bs) true) [
    | inr (e, p) ↦
        inr (ground (arith, e), (0, omega arith, ground (arith, e, p, append-nil (parts s))))
    | inl (e, p) ↦ elim (send_payloads_lem (send_frame Z s b.bytes (has_more bs) true).0 bs) [
      | inl (e', p') ↦ inl (
        ground (arith, e, e'),
        ground (
          arith,
          e,
          p,
          p',
          has_more-payloads bs,
          append_assoc (parts s) ((b.bytes, has_more bs) ∷ []) (wire (payloads bs)),
        ),
      )
      | inr (e', q) ↦
          let (n, lt, p') = q in
          inr (
            ground (arith, e, e'),
            (
              suc n,
              omega arith,
              ground (
                arith,
                e,
                p,
                p',
                has_more-payloads bs,
                append_assoc (parts s) ((b.bytes, has_more bs) ∷ []) (take n (wire (payloads bs))),
              ),
            ),
          )
    ]
  ]

  -- A frame is sent as one multipart message of its header and its payloads in order, and counted for its
  -- group; or a proper part of the message is sent, and the frame is counted as dropped.
  send_parts_lem :
      (s : Socket) (st : PublisherStats) (frame : ChannelFrame) (header : Text)
      → let (s', st', ok) = send_parts Z s st frame header in
        let message = wire (header ∷ payloads frame.bundles) in
        ((ok ≡ true) × (parts s' ≡ parts s ++ message) × (st' ≡ count_sent frame.group st))
        ⊎ ((ok ≡ false)
            × (st' ≡ count_dropped st)
            × ((n : ℕ) × (n < length message) × (parts s' ≡ parts s ++ take n message)))
  unfolding send_parts
  send_parts_lem s st frame header =
      let bs = frame.bundles in
      let s' = (send_frame Z s header (has_more bs) false).0 in
      let same = has_more-payloads bs in
      elim (send_frame_lem s header (has_more bs) false) [
        | inr (e, p) ↦ inr (
          ground (arith, e),
          ground (arith, e),
          (0, omega arith, ground (arith, e, p, append-nil (parts s))),
        )
        | inl (e, p) ↦ elim (send_payloads_lem s' bs) [
          | inl (e', p') ↦ inl (
            ground (arith, e, e'),
            ground (
              arith,
              e,
              e',
              p,
              p',
              same,
              append_assoc (parts s) ((header, has_more bs) ∷ []) (wire (payloads bs)),
            ),
            ground (arith, e, e'),
          )
          | inr (e', q) ↦
              let (n, lt, p') = q in
              inr (
                ground (arith, e, e'),
                ground (arith, e, e'),
                (
                  suc n,
                  omega arith,
                  ground (
                    arith,
                    e,
                    e',
                    p,
                    p',
                    same,
                    append_assoc (parts s) ((header, has_more bs) ∷ [])
                        (take n (wire (payloads bs))),
                  ),
                ),
              )
        ]
      ]

  -- If a failed send queues nothing and the header can be dumped, `send_multipart` returns; either it has
  -- sent the header and all payloads in order as one message and counted the frame for its group, or it has
  -- sent only the beginning of that message and counted the frame as dropped.
  pub send_multipart_lem :
      (J : Json) (pub_id : Text) (s : Socket) (st : PublisherStats) (frame : ChannelFrame)
      (pub_sec pub_nsec : ℤ) (header : Text)
      → J.dump (header_json J pub_id frame pub_sec pub_nsec) ≡ some header
      → (s' : Socket) × (st' : PublisherStats) × (ok : Bool) × (send_multipart Z J pub_id s st frame
            pub_sec pub_nsec
          ≡ some (s', st', ok))
        × (let message = wire (header ∷ payloads frame.bundles) in
            ((ok ≡ true) × (parts s' ≡ parts s ++ message) × (st' ≡ count_sent frame.group st))
            ⊎ ((ok ≡ false)
                × (st' ≡ count_dropped st)
                × ((n : ℕ) × (n < length message) × (parts s' ≡ parts s ++ take n message))))
  unfolding send_multipart
  send_multipart_lem J pub_id s st frame pub_sec pub_nsec header e =
      let (s', st', ok) = send_parts Z s st frame header in
      (s', st', ok, rw (e, send_multipart) refl, send_parts_lem s st frame header)
