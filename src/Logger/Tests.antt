-- ===== src/Logger/Tests.antt =====
-- Lines of the log, and a witness.
use iot_services_monitoring.Common.{
  ℕ, ◌≡◌, refl, List, [], ◌∷◌, ◌++◌, Option, none, some, pos, All, map,
}
use iot_services_monitoring.Text.{Text, codes}
use iot_services_monitoring.Logger.{
  Log, Entry, log_sensor, log_info, line_of, log_all, logger_init, logger_close,
}
use iot_services_monitoring.Logger.Threads.{
  Action, unlock, outputs, steps_of, Loggers, IsOutput, take_mutex, give_mutex, output, Reach,
  start, later, Taken, perform_all,
}
use iot_services_monitoring.Logger.Threads.Mutex.{outputs-IsOutput, reach-log}
use iot_services_monitoring.Logger.Output.{lines_of}

abbrev entries : List Entry
entries =
    log_sensor (codes "2026-03-30 14:05:00") (codes "10.0.0.7") (pos 40100) (codes "PING s1")
      (codes "200 PONG")
    ∷ log_info (codes "2026-03-30 14:05:01") (codes "Sensor server listening on port 9090")
    ∷ []

lines_test :
    lines_of entries
    ≡ codes
        "[2026-03-30 14:05:00] [SENSOR] IP=10.0.0.7 PORT=40100 RECV=\"PING s1\" RESP=\"200 PONG\""
      ∷ codes "[2026-03-30 14:05:01] [INFO]   MSG=\"Sensor server listening on port 9090\""
      ∷ []
unfolding line_of
lines_test = refl

-- The file that is open is appended to, and is left alone once it is closed.
closed_test :
    logger_close
      (logger_init
        (codes "logs")
        (some (codes "old"))
        (codes "now")
        (record { console = []; file = none })).0
    ≡ (record {
      console = codes "[now] [INFO]   MSG=\"Logger inicializado. Archivo: logs/server.log\"\n";
      file = none;
    })
unfolding logger_init logger_close
closed_test = refl

-- Outputs of the first thread, one after the other.
outputs-Reach :
    {log₀ log : Log} {entries : List (List Entry)} {holder : Option ℕ} {others : List (List Action)}
    (acts more : List Action)
    → All IsOutput acts
    → Reach log₀ entries (record { log = log; holder = holder; threads = (acts ++ more) ∷ others })
    → Reach log₀ entries
        (record { log = perform_all acts log; holder = holder; threads = more ∷ others })
outputs-Reach [] more h r = r
outputs-Reach (a ∷ acts) more h r =
    outputs-Reach acts more h.1 (later r (output 0 a (acts ++ more) h.0 refl))

abbrev two_threads : List (List Entry)
two_threads =
    (log_info (codes "now") (codes "up") ∷ [])
    ∷ (log_info (codes "now") (codes "port 9090") ∷ [])
    ∷ []

abbrev outputs_before : Log
outputs_before = record { console = codes "a"; file = some (codes "b") }

abbrev up : Text
up = line_of (log_info (codes "now") (codes "up"))

-- The first thread has written its line, and the second is about to.
abbrev first_done : Loggers
first_done = record {
  log = perform_all (outputs up) outputs_before;
  holder = none;
  threads = [] ∷ steps_of (log_info (codes "now") (codes "port 9090") ∷ []) ∷ [];
}

first_done-Reach : Reach outputs_before two_threads first_done
first_done-Reach =
    later
      (outputs-Reach (outputs up) (unlock ∷ []) (outputs-IsOutput up)
        (later start (take_mutex 0 (outputs up ++ (unlock ∷ [])) refl refl)))
      (give_mutex 0 [] refl)

reach-log_example :
    (es : List Entry) × (left : List (List Entry)) × Taken two_threads es left
    × (first_done.threads ≡ map steps_of left)
    × (first_done.log ≡ log_all es outputs_before)
reach-log_example = reach-log outputs_before two_threads first_done-Reach refl
