-- ===== src/Logger/Threads.antt =====
-- The threads that log, with each byte of the two outputs a step of its own: what log_mutex is for.
pub mod Mutex
use mathlib.Core.List.{append_assoc, append-nil}
use iot_services_monitoring.Common.{
  ℕ, ◌≡◌, refl, sym, ap, ◌∙◌, List, [], ◌∷◌, ◌++◌, Option, none, some, map, set, get_elem?,
}
use iot_services_monitoring.Text.{Text}
use iot_services_monitoring.Logger.{Log, Entry, line_of, write_log, with_line, in_file}

-- What a thread does in write_log: the mutex, and one byte to an output. Without an open file nothing
-- is written there.
pub data Action : Type 0 where
  lock unlock : Action
  put_console put_file : ℕ → Action

abbrev pub perform_action : Action → Log → Log
perform_action lock l = l
perform_action unlock l = l
perform_action (put_console c) l = record l { console = l.console ++ (c ∷ []) }
perform_action (put_file c) l = record l {
  file = elim l.file [ none ↦ none | some t ↦ some (t ++ (c ∷ [])) ];
}

abbrev pub outputs : Text → List Action
outputs line = map put_console (line ++ (10 ∷ [])) ++ map put_file (line ++ (10 ∷ []))

-- write_log, then the rest of the thread.
abbrev pub write_log_steps : Text → List Action → List Action
write_log_steps line rest = lock ∷ (outputs line ++ (unlock ∷ rest))

-- A thread that logs these entries.
abbrev pub steps_of : List Entry → List Action
steps_of [] = []
steps_of (e ∷ es) = write_log_steps (line_of e) (steps_of es)

-- The outputs, the thread that has the mutex, and what each thread has still to do.
pub record Loggers : Type 0 where
  pub log : Log
  pub holder : Option ℕ
  pub threads : List (List Action)

abbrev pub IsOutput : Action → Type 0
IsOutput lock = ⊥
IsOutput unlock = ⊥
IsOutput (put_console c) = Unit
IsOutput (put_file c) = Unit

pub data Step (s : Loggers) : Loggers → Type 0 where
  take_mutex :
      (i : ℕ) (rest : List Action)
      → s.holder ≡ none
      → get_elem? s.threads i ≡ some (lock ∷ rest)
      → Step s (record s { holder = some i; threads = set s.threads i rest })
  give_mutex :
      (i : ℕ) (rest : List Action)
      → get_elem? s.threads i ≡ some (unlock ∷ rest)
      → Step s (record s { holder = none; threads = set s.threads i rest })
  output :
      (i : ℕ) (a : Action) (rest : List Action)
      → IsOutput a
      → get_elem? s.threads i ≡ some (a ∷ rest)
      → Step s (record s { log = perform_action a s.log; threads = set s.threads i rest })

-- What the threads reach from outputs `log`.
pub data Reach (log : Log) (entries : List (List Entry)) : Loggers → Type 0 where
  start : Reach log entries (record { log = log; holder = none; threads = map steps_of entries })
  later : {s t : Loggers} → Reach log entries s → Step s t → Reach log entries t

-- Entries taken one by one from the fronts of lists, and what is left of the lists.
pub data Taken (entries : List (List Entry)) : List Entry → List (List Entry) → Type 0 where
  nothing : Taken entries [] entries
  take :
      {es : List Entry} {left : List (List Entry)} (i : ℕ) (e : Entry) (rest : List Entry)
      → Taken entries es left
      → get_elem? left i ≡ some (e ∷ rest)
      → Taken entries (es ++ (e ∷ [])) (set left i rest)

abbrev pub perform_all : List Action → Log → Log
perform_all [] l = l
perform_all (a ∷ more) l = perform_all more (perform_action a l)

perform_all-append :
    (more bs : List Action) (l : Log)
    → perform_all (more ++ bs) l ≡ perform_all bs (perform_all more l)
perform_all-append [] bs l = refl
perform_all-append (a ∷ more) bs l = perform_all-append more bs (perform_action a l)

console_bytes :
    (text : Text) (l : Log)
    → perform_all (map put_console text) l ≡ record l { console = l.console ++ text }
console_bytes [] l = ap (λ t. record l { console = t }) (sym (append-nil l.console))
console_bytes (c ∷ text) l =
    console_bytes text (perform_action (put_console c) l)
    ∙ ap (λ t. record l { console = t }) (append_assoc l.console (c ∷ []) text)

file_bytes :
    (text : Text) (console t : Text)
    → perform_all (map put_file text) (record { console = console; file = some t })
      ≡ record { console = console; file = some (t ++ text) }
file_bytes [] console t = ap (λ u. record { console = console; file = some u }) (sym (append-nil t))
file_bytes (c ∷ text) console t =
    file_bytes text console (t ++ (c ∷ []))
    ∙ ap (λ u. record { console = console; file = some u }) (append_assoc t (c ∷ []) text)

no_file_bytes :
    (text : Text) (console : Text)
    → perform_all (map put_file text) (record { console = console; file = none })
      ≡ record { console = console; file = none }
no_file_bytes [] console = refl
no_file_bytes (c ∷ text) console = no_file_bytes text console

in_file_bytes :
    (line console : Text) (file : Option Text)
    → perform_all (map put_file (line ++ (10 ∷ []))) (record { console = console; file = file })
      ≡ record { console = console; file = in_file line file }
in_file_bytes line console none = no_file_bytes (line ++ (10 ∷ [])) console
in_file_bytes line console (some t) = file_bytes (line ++ (10 ∷ [])) console t

-- A thread that is not disturbed writes a line as write_log does.
pub outputs_lem : (line : Text) (l : Log) → perform_all (outputs line) l ≡ write_log line l
unfolding write_log
outputs_lem line l =
    let text = line ++ (10 ∷ []) in
    let console = with_line line l.console in
    perform_all-append (map put_console text) (map put_file text) l
    ∙ ap (perform_all (map put_file text)) (console_bytes text l)
    ∙ in_file_bytes line console l.file
