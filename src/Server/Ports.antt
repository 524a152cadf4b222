-- ===== src/Server/Ports.antt =====
-- The ports that the command line asks for, and those on which the servers listen.
use iot_services_monitoring.Common.{ℕ, ◌≡◌, refl, List, [], ◌∷◌, ◌%◌, ◌^◌, ◌<◌, true, some, pos, ℤ}
use iot_services_monitoring.Text.{codes, decimal}
use iot_services_monitoring.Utils.Numbers.{atoi}
use iot_services_monitoring.Utils.Integers.{atoi-decimal}
use iot_services_monitoring.Config.{ServerConfig, snprintf}
use iot_services_monitoring.Main.{default_config, parse_args, parsed}
use iot_services_monitoring.Main.Args.{
  Setting, sensor_port, http_port, apply_all, parse_args_settings,
}
use iot_services_monitoring.Server.{
  Round, Setup, Effect, Kind, sensors, http, log_info, bind, listen, listen_backlog, title,
  accept_loop, server_start, sensor_server_start, http_server_start,
}

-- Every call of the set-up succeeds, and socket returns `fd`.
abbrev pub set_up : ℕ → Setup
set_up fd = record { server_fd = some fd; bind_ok = true; listen_ok = true }

-- What a server does that was asked for port `n`.
abbrev pub serving : Kind → ℕ → List Round → List Effect
serving k n rounds =
    bind (n % 2 ^ 16)
    ∷ listen listen_backlog
    ∷ log_info (snprintf 128 (title k ∷ codes " server listening on port " ∷ decimal n ∷ []))
    ∷ accept_loop k rounds

serve_port :
    (k : Kind) (port : ℤ) (n fd : ℕ) (rounds : List Round)
    → port ≡ pos n
    → server_start k port (set_up fd) rounds ≡ serving k n rounds
unfolding server_start
serve_port k port n fd rounds e = rw e refl

-- With --sensor-port and --http-port and two numbers in the range of int, each server listens on its
-- number modulo 2^16, and logs the number itself.
pub ports_of_arguments :
    (sensor_number http_number fd fd' : ℕ) (rounds rounds' : List Round)
    → sensor_number < 2 ^ 31
    → http_number < 2 ^ 31
    → let args =
        codes "--sensor-port"
        ∷ decimal sensor_number
        ∷ codes "--http-port"
        ∷ decimal http_number
        ∷ [] in
      (c : ServerConfig) × (parse_args atoi args ≡ parsed c)
      × (sensor_server_start c (set_up fd) rounds ≡ serving sensors sensor_number rounds)
      × (http_server_start c (set_up fd') rounds' ≡ serving http http_number rounds')
ports_of_arguments p q fd fd' rounds rounds' h h' =
    let settings : List Setting = sensor_port (decimal p) ∷ http_port (decimal q) ∷ [] in
    (
      apply_all atoi settings default_config,
      (parse_args_settings atoi settings []).0,
      serve_port sensors (atoi (decimal p)) p fd rounds (atoi-decimal p),
      serve_port http (atoi (decimal q)) q fd' rounds' (atoi-decimal q),
    )
