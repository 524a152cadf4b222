-- ===== src/Main/Tests.antt =====
-- A command line, and a witness.
use iot_services_monitoring.Common.{◌≡◌, refl, List, [], ◌∷◌, ℤ, pos, true}
use iot_services_monitoring.Text.{Text, codes}
use iot_services_monitoring.Main.{main, print_usage, print_error, usage}
use iot_services_monitoring.Main.Args.{Setting, http_port, log_dir}

-- A conversion that reads every text as 81.
abbrev reads_81 : Text → ℤ
reads_81 s = pos 81

abbrev settings : List Setting
settings = http_port (codes "80") ∷ log_dir (codes "/app/logs") ∷ http_port (codes "81") ∷ []

unknown_test :
    main reads_81
      (codes "server")
      (codes "--port" ∷ codes "80" ∷ [])
      (record { log_ok = true; sensor_thread_ok = true; http_thread_ok = true })
    ≡ (
      print_error (codes "Error: argumento desconocido: --port")
          ∷ print_usage (usage (codes "server"))
          ∷ [],
      1,
    )
unfolding main
unknown_test = refl
