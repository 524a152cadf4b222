-- ===== src/Server/Tests.antt =====
-- A loop in which each call fails once, and a witness.
use iot_services_monitoring.Common.{◌≡◌, refl, arith, List, [], ◌∷◌, true, false, ℕ, some, pos}
use iot_services_monitoring.Text.{codes, decimal}
use iot_services_monitoring.Config.{ServerConfig, concat}
use iot_services_monitoring.Utils.Numbers.{atoi}
use iot_services_monitoring.Main.{parse_args, parsed}
use iot_services_monitoring.Server.Ports.{set_up, ports_of_arguments}
use iot_services_monitoring.Server.{
  listen, sensor_server_start, http_server_start, ClientInfo, bind, Round, sensors, http,
  accept_failed, accepted, accept_loop, server_start, log_info, close,
}

abbrev client : ℕ → ClientInfo
client fd = record { client_fd = fd; client_ip = codes "10.0.0.7"; client_port = 50000 }

abbrev rounds : List Round
rounds =
    accepted (client 5) true true
    ∷ accept_failed
    ∷ accepted (client 6) false true
    ∷ accepted (client 7) true false
    ∷ accepted (client 8) true true
    ∷ []

bind_test :
    server_start http
      (pos 8080)
      (record { server_fd = some 3; bind_ok = false; listen_ok = true })
      rounds
    ≡ bind 8080 ∷ log_info (codes "FATAL: Cannot bind HTTP server to port 8080") ∷ close 3 ∷ []
unfolding server_start
bind_test = refl

-- The second server is asked for a port that no address has.
ports_of_arguments_example :
    (c : ServerConfig) × (parse_args atoi
        (codes "--sensor-port" ∷ codes "9191" ∷ codes "--http-port" ∷ codes "70000" ∷ [])
      ≡ parsed c)
    × (sensor_server_start c (set_up 3) rounds
        ≡ bind 9191
          ∷ listen 16
          ∷ log_info (codes "Sensor server listening on port 9191")
          ∷ accept_loop sensors rounds)
    × (http_server_start c (set_up 4) []
        ≡ bind 4464 ∷ listen 16 ∷ log_info (codes "HTTP server listening on port 70000") ∷ [])
unfolding decimal accept_loop concat
ports_of_arguments_example = ports_of_arguments 9191 70000 3 4 rounds [] (omega arith) (omega arith)
