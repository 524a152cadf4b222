-- ===== src/Lib.antt =====
-- The server of the IoT monitoring platform, server/src and server/include, with its authentication
-- service and its Python sensor, as a model that runs and theorems about it.
--
-- The program. Sensors open TCP connections and speak the line protocol SMP 1.0 of
-- protocolo/SMP_1_0.md; one thread per connection reads lines, calls the shared state of state.c
-- and answers. Operators read the same state over HTTP. All shared data stands behind one mutex,
-- that each function of state.c holds from its first access to its last.
--
-- The model, by files:
--   Common and its children: shared names, lists measured by native numbers, Boolean tests, int.
--   Text: C strings as lists of bytes without NUL, with strcmp, strstr, strchr, strtok_r
--     (Text/Tokens).
--   Double: the C type double as its IEEE 754 bit pattern, with its order and printf's %.2f, and
--     the double nearest to a fraction (Double/Nearest).
--   Utils: server/src/utils.c. Character arrays byte by byte for safe_strncpy (Utils/Copy), the
--     socket as the bytes that will arrive and how they end for recv_line, and as what each call of
--     send takes for send_line (Utils/Lines, Utils/Received), is_valid_timestamp (Utils/Timestamp), parse_double,
--     get_timestamp (Utils/Clock) and trim (Utils/Trim). strtod and atoi are Utils/Numbers; what is
--     read of decimal texts, printed again and compared is Utils/Decimals, Utils/Hundredths,
--     Utils/Numerals, Utils/Compare and Utils/Integers.
--   State: server/include/state.h and config.h; State/Ops: the functions of server/src/state.c,
--     from state to state. State/Inv is the invariant, State/Registry the abstract map of sensors
--     with its refinement, State/Recent the circular tables as lists, State/Arrays the search
--     loops.
--   Calls: programs whose effects are calls of state.c, run alone or among the calls of other
--     threads; what holds of every interleaving (Calls/Invariant, Calls/Lifetime), or beside
--     threads that keep a property (Calls/Rely, Calls/Service/Active). Calls/Service is the
--     contract of state.h without arrays, which state.c refines; the states up to the slots of the
--     sensors are a quotient (Calls/Service/Commute).
--   Threads: the whole server as a step relation: one thread for each connection that the accept
--     loops start, a step being one call of state.c. Threads/Invariant and Threads/Outcomes say
--     what holds of every state that is reached, Threads/Runs relates a schedule to one thread's
--     view of it.
--   Telemetry: from the line of a sensor to the page of an operator.
--   Alerts: server/src/alerts.c.
--   Smp: server/src/sensor_handler.c; a handler returns its response, a session the list of lines
--     and responses (Smp/Session), whose log is in Smp/Log. What each command does is in
--     Smp/Metrics, Smp/Status, Smp/Register and Smp/Lifetime, on the texts of values in Smp/Values
--     and Smp/Nan; which responses a session has is in Smp/Replies, and lines that fill the buffer
--     are in Smp/FullLines.
--   Config: the sizes and defaults of server/include/config.h, and g_config; snprintf's cut.
--   Logger: server/src/logger.c, the lines and the two outputs (Logger/Output); the threads
--     that write, byte by byte under log_mutex (Logger/Threads, Logger/Threads/Mutex).
--   Auth: server/src/auth_client.c; what the service's answers give (Auth/Answers), and what holds
--     whatever the network does (Auth/Results).
--   Http: server/src/http_server.c. The texts of the pages (Http/Style, Http/Pages), the tables of
--     alerts and metrics behind a running offset (Http/Tables), the page of the sensors
--     (Http/Sensors), requests and routes (Http/Requests). What is shown and fits (Http/Fit,
--     Http/Sizes, Http/Views, Http/Inventory, Http/Patched, Http/Overrun), what is answered
--     (Http/Routes, Http/Answers, Http/Statuses) and sent (Http/Sending).
--   Server: the accept loops of server/src/sensor_server.c and http_server.c (Server/Accept), and
--     the ports of the command line on which they listen (Server/Ports).
--   Main: server/src/main.c, the command line (Main/Args) and the start.
--   AuthServer: auth_service/auth_server.py, and the logins of its users at the server
--     (AuthServer/Logins).
--   SensorClient: what clients/python_sensor/sensor.py sends, and its whole session with the server
--     (SensorClient/Begin, SensorClient/Sessions), line by line (SensorClient/Words,
--     SensorClient/Talk) with the samples that are accepted (SensorClient/Samples); the session on
--     a server with other connections (SensorClient/Steady, SensorClient/Crowd). Python:
--     str.strip() for both.
--   Tests modules: runs on concrete input, and the theorems at concrete input.
--
-- Choices. A character array is kept as the C string that it holds, shortened as safe_strncpy does
-- it; Utils/Copy relates this to the bytes. A call of state.c is atomic, and between two calls of
-- one thread any list of calls of other threads may come. The loop of a connection takes as fuel
-- one round more than there are bytes to come: each round but the last uses up a byte. So does the
-- loop over the headers of a request. A write of http_server.c outside its buffer is the result
-- `none` or `overrun`. The pages are bytes: their texts are those of the C source.
--
-- Parameters. strtod is a function argument of what parses a METRIC, and atoi of what parses the
-- command line, with no hypothesis; theorems on the texts of values and ports take those of
-- Utils/Numbers. Flask's request.args.get is an argument of auth, and a theorem takes that it gives
-- values without escapes as they stand. A range error of strtod is set as glibc sets it, the digits
-- of nan(...) are not kept, and atoi past the range of int is left as the number. What the system
-- does is data: the bytes that recv gives and how they end, the sizes that send takes, whether a
-- socket, a connection, memory, a thread or the log file can be had, the local time, and the text
-- of the clock.
--
-- Not modelled: the preparation of the arguments of system calls other than the port, the signal
-- mask, state_destroy, which only frees the mutex, and the text of the logger on stderr; Flask and
-- the route /health of auth_server.py; the command line, console and socket errors of sensor.py;
-- the Java client, the launcher and the mock server of clients.
pub mod Common
pub mod Text
pub mod Double
pub mod Utils
pub mod State
pub mod Calls
pub mod Threads
pub mod Telemetry
pub mod Config
pub mod Logger
pub mod Auth
pub mod Http
pub mod Python
pub mod AuthServer
pub mod SensorClient
pub mod Server
pub mod Main
pub mod Alerts
pub mod Smp
