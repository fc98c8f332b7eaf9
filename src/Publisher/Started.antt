-- ===== src/Publisher/Started.antt =====
-- data/DataPublisher.cpp: what `start` leaves.
use sim_vision_sdk.Prelude.{
  ◌≡◌, Bool, true, false, ◌&&◌, Option, none, some, Text, if◌then◌else◌, arith, text-eq,
}
use sim_vision_sdk.Zmq.{Zmq}
use sim_vision_sdk.Publisher.Running.{PerGroup, Publisher, start, with_sockets}
use sim_vision_sdk.Publisher.Counted.{is_open}

module _ (Z : Zmq) where
  open Z use {Socket}

  module _ (bind : Socket → Text → Socket × Bool) where
    -- What `start` promises: success means that it runs with all sockets open, failure that it does not run.
    abbrev pub Started : Publisher Z × Bool → Type 0
    Started (p, ok) = (p.running ≡ ok) × ((ok && is_open Z p) ≡ ok)

    with_sockets-Started :
        (p : Publisher Z) (a b c : Option Socket)
        → p.running ≡ false
        → Started (with_sockets Z bind p a b c)
    with_sockets-Started p none b c off = ground (arith, off)
    with_sockets-Started p (some a) none c off = ground (arith, off)
    with_sockets-Started p (some a) (some b) none off = ground (arith, off)
    with_sockets-Started p (some a) (some b) (some c) off = ground (arith, off)

    Started-if :
        (t : Bool) (r q : Publisher Z × Bool) → t ≡ false → Started q → Started (if t then r else q)
    Started-if true r q e h = absurd (ground (arith, e))
    Started-if false r q e h = h

    -- `start` of a publisher that does not run yet: it runs exactly if `start` says so, and then all three sockets
    -- are open.
    pub start-Started :
        (created : PerGroup (Option Socket)) (p : Publisher Z)
        → p.running ≡ false
        → Started (start Z bind created p)
    unfolding start
    start-Started created p off =
        Started-if p.running (p, false)
          (with_sockets Z bind (record p { sockets = created }) created.for_2d created.for_3d
            created.for_sensor)
          off
          (with_sockets-Started (record p { sockets = created }) created.for_2d created.for_3d
            created.for_sensor off)
