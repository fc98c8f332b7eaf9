-- ===== src/Zmq.antt =====
-- libzmq, as the publisher uses it: a parameter of the model, with the documented effect of a send.
pub mod Trace
use sim_vision_sdk.Prelude.{ℕ, ◌≡◌, ◌⊎◌, Bool, true, false, List, [], ◌∷◌, ◌++◌}

-- A socket stands for the state of the library as well, which decides what fails.
pub record Zmq : Type 1 where
  pub Socket : Type 0
  -- Does `new (std::nothrow)`, `zmq_msg_init_data`, `zmq_msg_init_size` succeed?
  pub new_hint : Socket → Bool
  pub msg_init_data : Socket → List ℕ → Bool
  pub msg_init_size : Socket → ℕ → Bool
  -- `zmq_msg_send` with `ZMQ_DONTWAIT`, and with `ZMQ_SNDMORE` if the flag says so
  pub msg_send : Socket → List ℕ → Bool → Socket × Bool
  -- The parts that the socket has accepted, each with its flag `ZMQ_SNDMORE`.
  pub parts : Socket → List (List ℕ × Bool)

-- A send that succeeds queues the part, and one that fails queues nothing.
abbrev pub SendLaw : Zmq → Type 0
SendLaw Z =
    (s : Z.Socket) (bytes : List ℕ) (more : Bool)
    → (((Z.msg_send s bytes more).1 ≡ true)
        × (Z.parts (Z.msg_send s bytes more).0 ≡ Z.parts s ++ (bytes, more) ∷ []))
      ⊎ (((Z.msg_send s bytes more).1 ≡ false) × (Z.parts (Z.msg_send s bytes more).0 ≡ Z.parts s))
