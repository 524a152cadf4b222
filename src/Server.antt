-- ===== src/Server.antt =====
-- server/src/sensor_server.c and the same code of http_server.c: setting up the listening socket, and
-- the loop that accepts connections. What the system calls return is data, and what is modelled is
-- which messages are logged, and which connections get a thread, are closed or are kept.
mod Tests
pub mod Accept
pub mod Ports
use iot_services_monitoring.Common.{
  ℕ, zero, suc, ◌+◌, Bool, true, false, not, List, [], ◌∷◌, ◌++◌, Option, none, some, ℤ, pos,
  negsuc, ◌-◌, ◌%◌, ◌^◌, if◌then◌else◌,
}
use iot_services_monitoring.Text.{Text, codes}
use iot_services_monitoring.Config.{ServerConfig, print_int, concat, snprintf}

-- What stands in the messages: the name in lower and in upper case, and the names of the types.
pub data Kind : Type 0 where
  sensors http : Kind

abbrev pub name : Kind → Text
name sensors = codes "sensor"
name http = codes "HTTP"

abbrev pub title : Kind → Text
title sensors = codes "Sensor"
title http = codes "HTTP"

abbrev pub info : Kind → Text
info sensors = codes "SensorClientInfo"
info http = codes "HttpClientInfo"

-- What the thread of a connection is given: SensorClientInfo and HttpClientInfo. The address is the
-- text that inet_ntop writes.
pub record ClientInfo : Type 0 where
  pub client_fd : ℕ
  pub client_ip : Text
  pub client_port : ℕ

-- One round of the loop: what accept, malloc and pthread_create return. A file descriptor is a number.
pub data Round : Type 0 where
  accept_failed : Round
  accepted : (client : ClientInfo) (malloc_ok thread_ok : Bool) → Round

-- What a round does. `bind` is given the port of the address, `listen` the backlog.
pub data Effect : Type 0 where
  log_info : Text → Effect
  bind listen : ℕ → Effect
  close : ℕ → Effect
  start_thread : ClientInfo → Effect

abbrev pub listen_backlog : ℕ
listen_backlog = 16

-- The conversion of an int to the uint16_t that htons takes.
abbrev pub port_of : ℤ → ℕ
port_of (pos n) = n % 2 ^ 16
port_of (negsuc n) = 2 ^ 16 - 1 - n % 2 ^ 16

unfoldable pub accept_round : Kind → Round → List Effect
unfolding concat
accept_round k accept_failed =
    log_info (concat (codes "WARNING: accept() failed on " ∷ name k ∷ codes " server" ∷ [])) ∷ []
accept_round k (accepted client malloc_ok thread_ok) =
    if not malloc_ok
    then log_info (concat (codes "ERROR: malloc failed for " ∷ info k ∷ []))
      ∷ close client.client_fd
      ∷ []
    else if not thread_ok
    then log_info
        (concat (codes "ERROR: pthread_create failed for " ∷ name k ∷ codes " handler" ∷ []))
      ∷ close client.client_fd
      ∷ []
    else start_thread client ∷ []

unfoldable pub accept_loop : Kind → List Round → List Effect
unfolding accept_round
accept_loop k [] = []
accept_loop k (r ∷ rs) = accept_round k r ++ accept_loop k rs

-- The calls before the loop: each succeeds or not. `server_fd` is what socket returns.
pub record Setup : Type 0 where
  pub server_fd : Option ℕ
  pub bind_ok : Bool
  pub listen_ok : Bool

-- The whole thread; it returns only where the set-up fails.
unfoldable pub server_start : Kind → ℤ → Setup → List Round → List Effect
unfolding concat print_int accept_loop
server_start k port s rounds = elim s.server_fd [
  | none ↦
      log_info (concat (codes "FATAL: Cannot create " ∷ name k ∷ codes " server socket" ∷ [])) ∷ []
  | some fd ↦
      if not s.bind_ok
      then bind (port_of port)
        ∷ log_info (
            snprintf 128 (
              codes "FATAL: Cannot bind "
              ∷ name k
              ∷ codes " server to port "
              ∷ print_int port
              ∷ []))
        ∷ close fd
        ∷ []
      else if not s.listen_ok
      then bind (port_of port)
        ∷ listen listen_backlog
        ∷ log_info
            (concat (codes "FATAL: Cannot listen on " ∷ name k ∷ codes " server socket" ∷ []))
        ∷ close fd
        ∷ []
      else bind (port_of port)
        ∷ listen listen_backlog
        ∷ log_info
            (snprintf 128 (title k ∷ codes " server listening on port " ∷ print_int port ∷ []))
        ∷ accept_loop k rounds
]

-- The two threads that main starts.
abbrev pub sensor_server_start : ServerConfig → Setup → List Round → List Effect
sensor_server_start g_config = server_start sensors g_config.sensor_port

abbrev pub http_server_start : ServerConfig → Setup → List Round → List Effect
http_server_start g_config = server_start http g_config.http_port
