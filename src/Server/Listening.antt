-- ===== src/Server/Listening.antt =====
-- api/AdminServer.cpp: `start`. Whether each call of OpenSSL and of the sockets succeeds is an argument.
use sim_vision_sdk.Prelude.{
  ℕ, zero, suc, ◌+◌, ◌-◌, ◌%◌, ◌≤◌, ◌≡◌, ◌↔◌, ap, Bool, not, ◌||◌, Option, none, some, [], Text,
  if◌then◌else◌, arith,
}
use sim_vision_sdk.Prelude.Int.{ℤ, pos, negsuc, pos_part, ◌≤ℤ◌}
use sim_vision_sdk.Json.{Json}
use sim_vision_sdk.Config.{AdminServerConfig}
use sim_vision_sdk.Config.Load.{load}
use sim_vision_sdk.Config.Checked.{Checked, load-Checked}

-- What the calls say.
pub record Calls : Type 0 where
  pub new_context : Bool
  pub certificate : Text → Bool
  pub private_key : Text → Bool
  pub new_socket : Bool
  pub bind : Text → ℕ → Bool
  pub listen : Bool

-- `static_cast<uint16_t>`
abbrev pub to_port : ℤ → ℕ
to_port (pos n) = n % 65536
to_port (negsuc n) = 65535 - n % 65536

-- `cfg_.worker_threads > 0 ? cfg_.worker_threads : 4`
abbrev pub worker_count : ℤ → ℕ
worker_count (pos zero) = 4
worker_count (pos (suc n)) = suc n
worker_count (negsuc n) = 4

-- The port on which the server listens and the number of its workers, or `none` if a call failed.
unfoldable pub start : Calls → AdminServerConfig → Option (ℕ × ℕ)
start calls cfg =
    if not calls.new_context
    then none
    else if not (calls.certificate cfg.cert_path) || not (calls.private_key cfg.key_path)
    then none
    else if not calls.new_socket
    then none
    else if not (calls.bind cfg.host (to_port cfg.port))
    then none
    else if not calls.listen
    then none
    else some (to_port cfg.port, worker_count cfg.worker_threads)

start-port :
    (calls : Calls) (cfg : AdminServerConfig) {out : ℕ × ℕ}
    → start calls cfg ≡ some out
    → out ≡ (to_port cfg.port, worker_count cfg.worker_threads)
unfolding start
start-port calls cfg e = ground (arith, e)

to_port_lem : (port : ℤ) → pos 1 ≤ℤ port → (pos (to_port port) ≡ port) ↔ (port ≤ℤ pos 65535)
to_port_lem (pos n) low = (λ e. bounded (ap pos_part e), λ le. ap pos (fits le))
  where
    bounded : n % 65536 ≡ n → n + 0 ≤ 65535 + 0
    bounded e = omega (arith, e)

    fits : n + 0 ≤ 65535 + 0 → n % 65536 ≡ n
    fits le = omega (arith, le)
to_port_lem (negsuc n) low = absurd (omega (arith, low))

worker_count_lem : (i : ℤ) → 1 ≤ worker_count i
worker_count_lem (pos zero) = omega arith
worker_count_lem (pos (suc n)) = omega arith
worker_count_lem (negsuc n) = omega arith

-- If the configuration loads without an error and `start` succeeds, the server has a worker, and it listens on the
-- configured port exactly if that is at most 65535.
pub start_lem :
    (J : Json) (path what : Text) (file : Option (Option J.Value)) (calls : Calls) {out : ℕ × ℕ}
    → (load J path what file).1 ≡ []
    → start calls (load J path what file).0.admin ≡ some out
    → let port = (load J path what file).0.admin.port in
      (1 ≤ out.1) × ((pos out.0 ≡ port) ↔ (port ≤ℤ pos 65535))
start_lem J path what file calls {out} loaded e =
    let cfg : AdminServerConfig = (load J path what file).0.admin in
    let known = start-port calls cfg e in
    let good : Checked J (load J path what file).0 = load-Checked J path what file loaded in
    rw known (worker_count_lem cfg.worker_threads, to_port_lem cfg.port good.port)
