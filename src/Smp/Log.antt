-- ===== src/Smp/Log.antt =====
-- What a connection writes to its socket and to the log. `clock` gives the text of the time at the
-- n-th entry of the connection.
use iot_services_monitoring.Common.{ℕ, ◌+◌, List, [], ◌∷◌, ◌++◌, Option, ℤ, length}
use iot_services_monitoring.Text.{Text, codes}
use iot_services_monitoring.Utils.{send_line}
use iot_services_monitoring.Config.{print_int, concat, snprintf}
use iot_services_monitoring.Logger.{Entry, log_sensor, log_info, log_error}
use iot_services_monitoring.Smp.{
  Exchange, Finish, disconnected, read_error, quit, out_of_fuel, Transcript,
}

-- The message of 127 bytes at most with the client's address.
abbrev about : Text → Text → ℤ → Text
about what ip port = snprintf 128 (what ∷ ip ∷ codes ":" ∷ print_int port ∷ [])

-- What goes out, and the entry; the result of send_line is not looked at.
unfoldable pub send_response : Text → Text → ℤ → Text → Text → List (Option ℕ) → Text × Entry
unfolding send_line
send_response ts ip port recv_msg resp accepts =
    ((send_line resp accepts).0, log_sensor ts ip port recv_msg resp)

module _ (clock : ℕ → Text) (ip : Text) (port : ℤ) where
  -- The entries of the loop from the n-th on.
  abbrev exchange_entries : ℕ → List Exchange → List Entry
  exchange_entries n [] = []
  exchange_entries n (e ∷ es) =
      log_sensor (clock n) ip port e.recv_msg e.resp ∷ exchange_entries (n + 1) es

  abbrev finish_entries : ℕ → Finish → List Entry
  finish_entries n disconnected =
      log_info (clock n) (about (codes "Sensor client disconnected: ") ip port) ∷ []
  finish_entries n read_error =
      log_error (clock n) ip port (codes "Error reading from sensor socket") ∷ []
  finish_entries n quit = []
  finish_entries n out_of_fuel = []

  -- All entries of handle_sensor_connection.
  unfoldable pub session_log : Transcript → List Entry
  unfolding concat print_int
  session_log t =
      let loop =
        exchange_entries 1 t.exchanges ++ finish_entries (1 + length t.exchanges) t.finish in
      log_info (clock 0) (about (codes "Sensor client connected: ") ip port)
      ∷ (loop
          ++ (log_info (clock (1 + length loop))
                (about (codes "Sensor handler thread finished for ") ip port)
              ∷ []))
