-- ===== src/Config/Checked.antt =====
-- What a configuration that was loaded without an error can be relied on for.
use sim_vision_sdk.Prelude.{
  ◌≤◌, ◌≡◌, refl, false, Option, none, some, [], Text, text, length, arith, Bool-cases, inl, inr,
}
use sim_vision_sdk.Prelude.Int.{pos, ◌≤ℤ◌, leb_ℤ_iff}
use sim_vision_sdk.Json.{Json}
use sim_vision_sdk.Config.{Settings, defaults}
use sim_vision_sdk.Config.Load.{
  Outcome, going, threw, stopped, no_admin_server, ◌>>=◌, put, field, section, within, read_capture,
  read_zmq, read_spsc, version_step, admin_step, capture_step, zmq_step, spsc_step, log_level_step,
  check_admin, check_capture, check_zmq, raise_queue_size, read_config, load, finish,
}

-- If the steps went on, the result satisfies `P`.
abbrev pub Ends : {A : Type 0} → (A → Type 0) → Outcome A → Type 0
Ends P (going a) = P a
Ends P (threw a) = Unit {0}
Ends P (stopped a fault) = Unit {0}

abbrev Any : Settings → Type 0
Any cfg = Unit {0}

Ends-Any : (o : Outcome Settings) → Ends Any o
Ends-Any (going a) = tt
Ends-Any (threw a) = tt
Ends-Any (stopped a fault) = tt

Ends->>= :
    {A : Type 0} (P Q : A → Type 0) (o : Outcome A) (f : A → Outcome A)
    → Ends P o
    → ((a : A) → P a → Ends Q (f a))
    → Ends Q (o >>= f)
Ends->>= P Q (going a) f h k = k a h
Ends->>= P Q (threw a) f h k = tt
Ends->>= P Q (stopped a fault) f h k = tt

module _ (J : Json) where
  open J use {Value, contains, at}

  put_keeps :
      {A B : Type 0} (P : A → Type 0) (o : Option B) (f : B → A → A) (a : A)
      → ((b : B) → P (f b a))
      → Ends P (put J o f a)
  put_keeps P none f a h = tt
  put_keeps P (some b) f a h = h b

  -- Reading a field keeps what it keeps whatever the value is.
  field_keeps :
      {A B : Type 0} (P : A → Type 0) (j : Value) (key : Text) (get : Value → Option B)
      (f : B → A → A) (a : A)
      → P a
      → ((b : B) → P (f b a))
      → Ends P (field J j key get f a)
  field_keeps P j key get f a old new = elim (Bool-cases (contains j key)) [
    | inl e ↦ rw e (put_keeps P (get (at j key)) f a new)
    | inr e ↦ rw e old
  ]

  within_keeps :
      {A : Type 0} (P : Settings → Type 0) (f : A → Settings) (o : Outcome A)
      → ((a : A) → P (f a))
      → Ends P (within J f o)
  within_keeps P f (going a) h = h a
  within_keeps P f (threw a) h = tt
  within_keeps P f (stopped a fault) h = tt

  section_keeps :
      {A : Type 0} (P : Settings → Type 0) (j : Value) (key : Text) (read : Value → A → Outcome A)
      (f : A → Settings) (a : A)
      → ((b : A) → P (f b))
      → Ends P (section J j key read f a)
  section_keeps P j key read f a h = elim (Bool-cases (contains j key)) [
    | inl e ↦ rw e (within_keeps P f (read (at j key) a) h)
    | inr e ↦ rw e (h a)
  ]

  pub record Checked (cfg : Settings) : Type 0 where
    pub port : pos 1 ≤ℤ cfg.admin.port
    pub fps_from : pos 1 ≤ℤ cfg.capture.fps
    pub fps_to : cfg.capture.fps ≤ℤ pos 240
    pub hwm : pos 1 ≤ℤ cfg.zmq.hwm
    pub endpoints : 3 ≤ length cfg.zmq.endpoints
    pub queue_size : pos 1 ≤ℤ cfg.spsc.queue_size

  abbrev PortOk : Settings → Type 0
  PortOk cfg = pos 1 ≤ℤ cfg.admin.port

  abbrev FpsOk : Settings → Type 0
  FpsOk cfg = PortOk cfg × (pos 1 ≤ℤ cfg.capture.fps) × (cfg.capture.fps ≤ℤ pos 240)

  abbrev ZmqOk : Settings → Type 0
  ZmqOk cfg = FpsOk cfg × (pos 1 ≤ℤ cfg.zmq.hwm) × (3 ≤ length cfg.zmq.endpoints)

  check_admin_lem : (j : Value) (cfg : Settings) → Ends PortOk (check_admin J j cfg)
  unfolding check_admin
  check_admin_lem j cfg = ground (arith, leb_ℤ_iff cfg.admin.port (pos 0))

  check_capture_lem : (cfg : Settings) → PortOk cfg → Ends FpsOk (check_capture J cfg)
  unfolding check_capture
  check_capture_lem cfg h =
      ground (arith, h, leb_ℤ_iff cfg.capture.fps (pos 0), leb_ℤ_iff (pos 241) cfg.capture.fps)

  check_zmq_lem : (cfg : Settings) → FpsOk cfg → Ends ZmqOk (check_zmq J cfg)
  unfolding check_zmq
  check_zmq_lem cfg h = ground (arith, h, leb_ℤ_iff cfg.zmq.hwm (pos 0))

  raise_lem : (cfg : Settings) → ZmqOk cfg → Ends Checked (raise_queue_size J cfg)
  unfolding raise_queue_size
  raise_lem cfg h = record {
    port = h.0.0;
    fps_from = h.0.1;
    fps_to = h.0.2;
    hwm = h.1;
    endpoints = h.2;
    queue_size = ground (arith, leb_ℤ_iff cfg.spsc.queue_size (pos 0));
  }

  log_level_keeps :
      (j : Value) (cfg : Settings)
      → Checked cfg
      → Ends Checked
          (field J j (text "log_level") J.get_string (λ v c. record c { log_level = v }) cfg)
  log_level_keeps j cfg v = field_keeps Checked j (text "log_level") J.get_string _ cfg v (λ b.
      record {
        port = v.port;
        fps_from = v.fps_from;
        fps_to = v.fps_to;
        hwm = v.hwm;
        endpoints = v.endpoints;
        queue_size = v.queue_size;
      })

  read_config_lem : (j : Value) (cfg : Settings) → Ends Checked (read_config J j cfg)
  unfolding read_config
  read_config_lem j cfg =
      let o₁ = version_step J j cfg in
      let o₂ = o₁ >>= admin_step J j in
      let o₃ = o₂ >>= check_admin J j in
      let o₄ = o₃ >>= capture_step J j in
      let o₅ = o₄ >>= check_capture J in
      let o₆ = o₅ >>= zmq_step J j in
      let o₇ = o₆ >>= check_zmq J in
      let o₈ = o₇ >>= spsc_step J j in
      let o₉ = o₈ >>= raise_queue_size J in
      let h₃ =
        Ends->>= Any PortOk o₂ (check_admin J j) (Ends-Any o₂) (λ c _. check_admin_lem j c) in
      let h₄ = Ends->>= PortOk PortOk o₃ (capture_step J j) h₃ (λ c h.
        section_keeps PortOk j (text "capture") (read_capture J) (λ a. record c { capture = a })
          c.capture (λ a. h)) in
      let h₅ = Ends->>= PortOk FpsOk o₄ (check_capture J) h₄ check_capture_lem in
      let h₆ = Ends->>= FpsOk FpsOk o₅ (zmq_step J j) h₅ (λ c h.
        section_keeps FpsOk j (text "zmq") (read_zmq J) (λ a. record c { zmq = a }) c.zmq
          (λ a. h)) in
      let h₇ = Ends->>= FpsOk ZmqOk o₆ (check_zmq J) h₆ check_zmq_lem in
      let h₈ = Ends->>= ZmqOk ZmqOk o₇ (spsc_step J j) h₇ (λ c h.
        section_keeps ZmqOk j (text "spsc") (read_spsc J) (λ a. record c { spsc = a }) c.spsc
          (λ a. h)) in
      let h₉ = Ends->>= ZmqOk Checked o₈ (raise_queue_size J) h₈ raise_lem in
      Ends->>= Checked Checked o₉ (log_level_step J j) h₉ (log_level_keeps j)

  finish_lem :
      (what : Text) (o : Outcome Settings)
      → Ends Checked o
      → (finish J what o).1 ≡ []
      → Checked (finish J what o).0
  finish_lem what (going cfg) v e = v
  finish_lem what (threw cfg) v e = absurd (ground (arith, e))
  finish_lem what (stopped cfg no_admin_server) v e = absurd (ground (arith, e))
  finish_lem what (stopped cfg _) v e = absurd (ground (arith, e))

  -- A configuration that is loaded without an error has a positive port, a frame rate from 1 to 240, a
  -- high-water mark and a queue size of at least 1, and at least three endpoints.
  pub load-Checked :
      (path what : Text) (file : Option (Option Value))
      → (load J path what file).1 ≡ []
      → Checked (load J path what file).0
  unfolding load
  load-Checked path what none e = absurd (ground (arith, e))
  load-Checked path what (some none) e = absurd (ground (arith, e))
  load-Checked path what (some (some j)) e =
      finish_lem what (read_config J j defaults) (read_config_lem j defaults) e

  -- A file with no `admin_server`, and no `version` to be read before it, is refused by name.
  pub load_no_admin_server :
      (path what : Text) (j : Value)
      → contains j (text "version") ≡ false
      → contains j (text "admin_server") ≡ false
      → load J path what (some (some j))
        ≡ (defaults, text "missing required config field: admin_server")
  unfolding load read_config check_admin
  load_no_admin_server path what j no_version none_named =
      rw (no_version, none_named) (rw none_named refl)
