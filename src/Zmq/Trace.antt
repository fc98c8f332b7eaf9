-- ===== src/Zmq/Trace.antt =====
-- A concrete instance, for tests and witnesses: a socket that accepts a given number of parts.
use sim_vision_sdk.Prelude.{
  ℕ, zero, suc, ◌≡◌, refl, inl, inr, ◌⊎◌, arith, Bool, true, false, List, [], ◌∷◌, ◌++◌,
}
use sim_vision_sdk.Zmq.{Zmq, SendLaw}

pub record Trace : Type 0 where
  pub room : ℕ
  pub accepted : List (List ℕ × Bool)

abbrev pub trace_send : Trace → List ℕ → Bool → Trace × Bool
trace_send t bytes more = elim t.room [
  | zero ↦ (t, false)
  | suc n ↦ (record { room = n; accepted = t.accepted ++ (bytes, more) ∷ [] }, true)
]

abbrev pub trace_zmq : Zmq
trace_zmq = record {
  Socket = Trace;
  new_hint = λ s. true;
  msg_init_data = λ s bytes. true;
  msg_init_size = λ s n. true;
  msg_send = trace_send;
  parts = λ s. s.accepted;
}

pub trace_zmq-SendLaw : SendLaw trace_zmq
trace_zmq-SendLaw s bytes more = decided s.room refl
  where
    decided :
        (n : ℕ)
        → s.room ≡ n
        → (((trace_send s bytes more).1 ≡ true)
            × ((trace_send s bytes more).0.accepted ≡ s.accepted ++ (bytes, more) ∷ []))
          ⊎ (((trace_send s bytes more).1 ≡ false)
              × ((trace_send s bytes more).0.accepted ≡ s.accepted))
    decided zero e = inr (ground (arith, e), ground (arith, e))
    decided (suc n) e = inl (ground (arith, e), ground (arith, e))
