-- ===== src/Main.antt =====
-- server/src/main.c: the command line and the start of the server. atoi, of the C library, is an
-- argument: Utils/Numbers has it. What the system does (the log file, the threads) is data.
mod Tests
pub mod Args
use iot_services_monitoring.Common.{
  ℕ, zero, suc, ◌-◌, Bool, true, false, not, List, [], ◌∷◌, ◌++◌, Option, none, some, take, ℤ,
  if◌then◌else◌,
}
use iot_services_monitoring.Text.{Text, codes, text_eq}
use iot_services_monitoring.State.{max_id_len}
use iot_services_monitoring.Config.{
  ServerConfig, max_path_len, sensor_port_default, http_port_default, auth_host_default,
  auth_port_default, log_dir_default, print_int, concat, snprintf,
}

-- g_config before the loop.
abbrev pub default_config : ServerConfig
default_config = record {
  sensor_port = sensor_port_default;
  http_port = http_port_default;
  auth_host = auth_host_default;
  auth_port = auth_port_default;
  log_dir = log_dir_default;
}

-- strncpy and the NUL behind it, on the whole array.
abbrev pub copied : Text → ℕ → Text
copied arg size = take (size - 1) arg

-- `helped`: print_usage and exit(0). `refused`: the message on stderr and -1.
pub data Parsed : Type 0 where
  helped : Parsed
  refused : Text → Parsed
  parsed : ServerConfig → Parsed

abbrev pub missing_value : Text → Parsed
missing_value flag = refused (concat (codes "Error: falta valor para " ∷ flag ∷ []))

abbrev pub unknown_argument : Text → Parsed
unknown_argument flag = refused (concat (codes "Error: argumento desconocido: " ∷ flag ∷ []))

-- The flags with their values; `none` for another word.
unfoldable pub set_flag : (Text → ℤ) → Text → Text → ServerConfig → Option ServerConfig
unfolding text_eq
set_flag atoi flag value c =
    if text_eq flag (codes "--sensor-port")
    then some (record c { sensor_port = atoi value })
    else if text_eq flag (codes "--http-port")
    then some (record c { http_port = atoi value })
    else if text_eq flag (codes "--auth-host")
    then some (record c { auth_host = copied value max_id_len })
    else if text_eq flag (codes "--auth-port")
    then some (record c { auth_port = atoi value })
    else if text_eq flag (codes "--log-dir")
    then some (record c { log_dir = copied value max_path_len })
    else none

-- The loop over argv[1] and what follows.
unfoldable pub parse_from : (Text → ℤ) → List Text → ServerConfig → Parsed
unfolding concat set_flag text_eq
parse_from atoi [] c = parsed c
parse_from atoi (flag ∷ []) c = if text_eq flag (codes "--help") then helped else missing_value flag
parse_from atoi (flag ∷ value ∷ args) c = elim (text_eq flag (codes "--help")) [
  | true ↦ helped
  | false ↦ elim (set_flag atoi flag value c) [
    | none ↦ unknown_argument flag
    | some c' ↦ parse_from atoi args c'
  ]
]

unfoldable pub parse_args : (Text → ℤ) → List Text → Parsed
unfolding parse_from
parse_args atoi args = parse_from atoi args default_config

-- What the start meets: whether the log file opens, and whether each thread can be made.
pub record System : Type 0 where
  pub log_ok : Bool
  pub sensor_thread_ok : Bool
  pub http_thread_ok : Bool

-- What the start does, in order. The two threads run until the process ends, so `join_threads` comes
-- back only where both have failed to listen.
pub data Action : Type 0 where
  init_logger init_state destroy_state close_logger join_threads : Action
  print_usage print_error log_info : Text → Action
  start_sensor_server start_http_server : Action

abbrev pub show_config : ServerConfig → List Action
show_config c =
    log_info (codes "========================================")
    ∷ log_info (codes "IoT Services Monitoring Server starting")
    ∷ log_info (codes "========================================")
    ∷ log_info (snprintf 256 (codes "Sensor port : " ∷ print_int c.sensor_port ∷ []))
    ∷ log_info (snprintf 256 (codes "HTTP port   : " ∷ print_int c.http_port ∷ []))
    ∷ log_info (
        snprintf 256
          (codes "Auth service: " ∷ c.auth_host ∷ codes ":" ∷ print_int c.auth_port ∷ []))
    ∷ log_info (snprintf 256 (codes "Log dir     : " ∷ c.log_dir ∷ []))
    ∷ []

-- Behind show_config: the actions, and the exit code.
abbrev pub launch : System → List Action × ℕ
launch s =
    if not s.sensor_thread_ok
    then (
      log_info (codes "FATAL: Cannot create sensor server thread")
          ∷ destroy_state
          ∷ close_logger
          ∷ [],
      1,
    )
    else if not s.http_thread_ok
    then (
      start_sensor_server
          ∷ log_info (codes "FATAL: Cannot create HTTP server thread")
          ∷ destroy_state
          ∷ close_logger
          ∷ [],
      1,
    )
    else (
      start_sensor_server
          ∷ start_http_server
          ∷ log_info (codes "All servers started. Waiting for connections...")
          ∷ join_threads
          ∷ destroy_state
          ∷ close_logger
          ∷ [],
      0,
    )

abbrev pub start : ServerConfig → System → List Action × ℕ
start c s =
    if not s.log_ok
    then (init_logger ∷ print_error (codes "FATAL: No se pudo inicializar el logger.") ∷ [], 1)
    else let (actions, code) = launch s in
      (init_logger ∷ init_state ∷ (show_config c ++ actions), code)

-- What print_usage writes to stderr.
unfoldable pub usage : Text → Text
unfolding concat print_int
usage progname =
    let newline = 10 ∷ [] in
    concat (
      codes "Uso: "
      ∷ progname
      ∷ codes " [opciones]"
      ∷ newline
      ∷ newline
      ∷ codes "Opciones:"
      ∷ newline
      ∷ codes "  --sensor-port <puerto>   Puerto TCP para sensores   (default: "
      ∷ print_int sensor_port_default
      ∷ codes ")"
      ∷ newline
      ∷ codes "  --http-port   <puerto>   Puerto HTTP para operadores (default: "
      ∷ print_int http_port_default
      ∷ codes ")"
      ∷ newline
      ∷ codes "  --auth-host   <host>     Hostname del auth service   (default: "
      ∷ auth_host_default
      ∷ codes ")"
      ∷ newline
      ∷ codes "  --auth-port   <puerto>   Puerto del auth service     (default: "
      ∷ print_int auth_port_default
      ∷ codes ")"
      ∷ newline
      ∷ codes "  --log-dir     <ruta>     Directorio de logs          (default: "
      ∷ log_dir_default
      ∷ codes ")"
      ∷ newline
      ∷ codes "  --help                   Muestra esta ayuda"
      ∷ newline
      ∷ newline
      ∷ codes "Ejemplo:"
      ∷ newline
      ∷ codes "  "
      ∷ progname
      ∷ codes " --auth-host auth.iot-monitor.example.com --log-dir /app/logs"
      ∷ newline
      ∷ [])

-- `progname` is argv[0], and `args` what follows it.
unfoldable pub main : (Text → ℤ) → Text → List Text → System → List Action × ℕ
unfolding parse_args concat print_int usage
main atoi progname args s = elim (parse_args atoi args) [
  | helped ↦ (print_usage (usage progname) ∷ [], 0)
  | refused message ↦ (print_error message ∷ print_usage (usage progname) ∷ [], 1)
  | parsed c ↦ start c s
]
