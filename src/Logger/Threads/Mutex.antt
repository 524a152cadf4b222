-- ===== src/Logger/Threads/Mutex.antt =====
-- Whenever log_mutex is free, whole lines have been written, in one order on both outputs.
use mathlib.Core.Path.{subst}
use iot_services_monitoring.Common.{
  ℕ, zero, suc, ◌≡◌, ◌≢◌, refl, sym, ap, ap₂, ◌∙◌, ◌⊎◌, inl, inr, List, [], ◌∷◌, ◌++◌, none, some,
  All, All-append, map, set, get_elem?, get_elem?-set_ne, arith, ◌==◌, Bool-cases,
}
use iot_services_monitoring.Text.{Text}
use iot_services_monitoring.Logger.{Log, Entry, line_of, write_log, log_all}
use iot_services_monitoring.Logger.Threads.{
  Action, lock, unlock, put_console, put_file, perform_action, outputs, write_log_steps, steps_of,
  Loggers, IsOutput, Step, take_mutex, give_mutex, output, Reach, start, later, Taken, nothing,
  take, perform_all, outputs_lem,
}

module _ {A : Type 0} where
  get-set :
      (xs : List A) (i : ℕ) {x y z : A}
      → get_elem? xs i ≡ some x
      → get_elem? (set xs i y) i ≡ some z
      → y ≡ z
  get-set [] i e f = absurd (ground arith)
  get-set (x ∷ xs) zero e f = ground arith
  get-set (x ∷ xs) (suc i) e f = get-set xs i e f

  set-set : (xs : List A) (i : ℕ) (y z : A) → set (set xs i y) i z ≡ set xs i z
  set-set [] i y z = refl
  set-set (x ∷ xs) zero y z = refl
  set-set (x ∷ xs) (suc i) y z = ap (λ ys. x ∷ ys) (set-set xs i y z)

  set-same : (xs : List A) (i : ℕ) {x : A} → get_elem? xs i ≡ some x → set xs i x ≡ xs
  set-same [] i e = refl
  set-same (x ∷ xs) zero {x = y} e = let same : x ≡ y = ground arith in ap (λ z. z ∷ xs) (sym same)
  set-same (x ∷ xs) (suc i) e = ap (λ ys. x ∷ ys) (set-same xs i e)

  get_self :
      (xs : List A) (i : ℕ) {x : A} (y : A)
      → get_elem? xs i ≡ some x
      → get_elem? (set xs i y) i ≡ some y
  get_self [] i y e = absurd (ground arith)
  get_self (x ∷ xs) zero y e = refl
  get_self (x ∷ xs) (suc i) y e = get_self xs i y e

-- What a thread outside write_log does next, if anything, is to ask for the mutex.
get-steps :
    (ess : List (List Entry)) (i : ℕ) {a : Action} {rest : List Action}
    → get_elem? (map steps_of ess) i ≡ some (a ∷ rest)
    → (e : Entry) × (es : List Entry) × (get_elem? ess i ≡ some (e ∷ es))
      × (write_log_steps (line_of e) (steps_of es) ≡ a ∷ rest)
get-steps [] i e = absurd (ground arith)
get-steps ([] ∷ ess) zero e = absurd (ground arith)
get-steps ((x ∷ es) ∷ ess) zero {a} {rest} e =
    let same : write_log_steps (line_of x) (steps_of es) ≡ a ∷ rest = cc in (x, es, refl, same)
get-steps (es ∷ ess) (suc i) e = get-steps ess i e

get-map :
    (ess : List (List Entry)) (i : ℕ) {es : List Entry}
    → get_elem? ess i ≡ some es
    → get_elem? (map steps_of ess) i ≡ some (steps_of es)
get-map [] i e = absurd (ground arith)
get-map (x ∷ ess) zero {es} e = let same : x ≡ es = ground arith in ap (λ y. some (steps_of y)) same
get-map (x ∷ ess) (suc i) e = get-map ess i e

set-map :
    (ess : List (List Entry)) (i : ℕ) (es : List Entry) (more : List Action)
    → set (map steps_of (set ess i es)) i more ≡ set (map steps_of ess) i more
set-map [] i es more = refl
set-map (x ∷ ess) zero es more = refl
set-map (x ∷ ess) (suc i) es more = ap (λ ys. steps_of x ∷ ys) (set-map ess i es more)

head-eq : {a b : Action} {r s : List Action} → a ∷ r ≡ b ∷ s → (a ≡ b) × (r ≡ s)
head-eq {a} {b} {r} {s} e = let one : a ≡ b = cc in let two : r ≡ s = cc in (one, two)

pub outputs-IsOutput : (line : Text) → All IsOutput (outputs line)
outputs-IsOutput line =
    All-append IsOutput (map put_console (line ++ (10 ∷ []))) (map put_file (line ++ (10 ∷ [])))
      (consoles (line ++ (10 ∷ []))) (files (line ++ (10 ∷ [])))
  where
    consoles : (text : Text) → All IsOutput (map put_console text)
    consoles [] = tt
    consoles (c ∷ text) = (tt, consoles text)

    files : (text : Text) → All IsOutput (map put_file text)
    files [] = tt
    files (c ∷ text) = (tt, files text)

log_all-snoc :
    (es : List Entry) (e : Entry) (l : Log)
    → log_all (es ++ (e ∷ [])) l ≡ write_log (line_of e) (log_all es l)
unfolding log_all
log_all-snoc [] e l = refl
log_all-snoc (x ∷ es) e l = log_all-snoc es e (write_log (line_of x) l)

leaves :
    (rest m more : List Action)
    → All IsOutput rest
    → rest ++ (unlock ∷ m) ≡ unlock ∷ more
    → (rest ≡ []) × (m ≡ more)
leaves [] m more h e = (refl, (head-eq e).1)
leaves (a ∷ rest) m more h e = absurd (subst IsOutput (head-eq e).0 h.0)

writes :
    (rest m more : List Action) (a : Action)
    → IsOutput a
    → rest ++ (unlock ∷ m) ≡ a ∷ more
    → (rest' : List Action) × (rest ≡ a ∷ rest') × (more ≡ rest' ++ (unlock ∷ m))
writes [] m more a h e = absurd (subst IsOutput (sym (head-eq e).0) h)
writes (b ∷ rest) m more a h e =
    let (one, two) = head-eq e in (rest, ap (λ x. x ∷ rest) one, sym two)

module _ (log : Log) (entries : List (List Entry)) where
  -- Nobody is inside write_log.
  record Free (s : Loggers) : Type 0 where
    es : List Entry
    left : List (List Entry)
    taken : Taken entries es left
    threads : s.threads ≡ map steps_of left
    written : s.log ≡ log_all es log

  -- Thread i is inside, and `rest` is what it has still to write.
  record Held (s : Loggers) : Type 0 where
    i : ℕ
    es : List Entry
    left : List (List Entry)
    mine : List Entry
    rest : List Action
    held : s.holder ≡ some i
    taken : Taken entries es left
    own : get_elem? left i ≡ some mine
    outs : All IsOutput rest
    threads : s.threads ≡ set (map steps_of left) i (rest ++ (unlock ∷ steps_of mine))
    written : perform_all rest s.log ≡ log_all es log

  abbrev Whole : Loggers → Type 0
  Whole s = ((s.holder ≡ none) × Free s) ⊎ Held s

  enter :
      {s : Loggers} (i : ℕ) (rest : List Action)
      → Free s
      → get_elem? s.threads i ≡ some (lock ∷ rest)
      → Held (record s { holder = some i; threads = set s.threads i rest })
  enter {s} i rest f e =
      let (x, mine, own, same) = get-steps f.left i (rw f.threads at e) in
      let (_, tail) = head-eq same in
      record {
        i = i;
        es = f.es ++ (x ∷ []);
        left = set f.left i mine;
        mine = mine;
        rest = outputs (line_of x);
        held = refl;
        taken = take i x mine f.taken own;
        own = get_self f.left i mine own;
        outs = outputs-IsOutput (line_of x);
        threads =
            ap₂ (λ ts r. set ts i r) f.threads (sym tail)
            ∙ sym (set-map f.left i mine (outputs (line_of x) ++ (unlock ∷ steps_of mine)));
        written =
            outputs_lem (line_of x) s.log
            ∙ ap (write_log (line_of x)) f.written
            ∙ sym (log_all-snoc f.es x log);
      }

  -- The next action inside: another thread has none, and this one writes or leaves.
  next :
      {s : Loggers} (h : Held s) (j : ℕ) (a : Action) (more : List Action)
      → get_elem? s.threads j ≡ some (a ∷ more)
      → (a ≡ lock) ⊎ ((j ≡ h.i) × (h.rest ++ (unlock ∷ steps_of h.mine) ≡ a ∷ more))
  next {s} h j a more e =
      let at : get_elem? (set (map steps_of h.left) h.i (h.rest ++ (unlock ∷ steps_of h.mine))) j
          ≡ some (a ∷ more) =
        rw h.threads at e in
      elim (Bool-cases (h.i == j)) [
        | inl same ↦
            let eq : j ≡ h.i = ground (arith, same) in
            inr (eq, get-set (map steps_of h.left) h.i (get-map h.left h.i h.own) (rw eq at at))
        | inr other ↦
            let ne : h.i ≢ j = ground (arith, other) in
            let away =
              get_elem?-set_ne (map steps_of h.left) (h.rest ++ (unlock ∷ steps_of h.mine)) ne in
            let (x, mine, own, same) = get-steps h.left j (sym away ∙ at) in
            inl (sym (head-eq same).0)
      ]

  leave :
      {s : Loggers} (h : Held s) (j : ℕ) (more : List Action)
      → get_elem? s.threads j ≡ some (unlock ∷ more)
      → Free (record s { holder = none; threads = set s.threads j more })
  leave {s} h j more e = elim (next h j unlock more e) [
    | inl clash ↦ absurd (cc)
    | inr (here, same) ↦
        let (done, tail) = leaves h.rest (steps_of h.mine) more h.outs same in
        let m = map steps_of h.left in
        record {
          es = h.es;
          left = h.left;
          taken = h.taken;
          threads =
              (λ k. set (h.threads k) (here k) (sym tail k))
              ∙ set-set m h.i (h.rest ++ (unlock ∷ steps_of h.mine)) (steps_of h.mine)
              ∙ set-same m h.i (get-map h.left h.i h.own);
          written = sym (ap (λ r. perform_all r s.log) done) ∙ h.written;
        }
  ]

  write :
      {s : Loggers} (h : Held s) (j : ℕ) (a : Action) (more : List Action)
      → IsOutput a
      → get_elem? s.threads j ≡ some (a ∷ more)
      → Held (record s { log = perform_action a s.log; threads = set s.threads j more })
  write {s} h j a more out e = elim (next h j a more e) [
    | inl clash ↦ absurd (subst IsOutput clash out)
    | inr (here, same) ↦
        let (rest, before, tail) = writes h.rest (steps_of h.mine) more a out same in
        let m = map steps_of h.left in
        record {
          i = h.i;
          es = h.es;
          left = h.left;
          mine = h.mine;
          rest = rest;
          held = h.held;
          taken = h.taken;
          own = h.own;
          outs = (subst (All IsOutput) before h.outs).1;
          threads =
              (λ k. set (h.threads k) (here k) (tail k))
              ∙ set-set m h.i (h.rest ++ (unlock ∷ steps_of h.mine))
                  (rest ++ (unlock ∷ steps_of h.mine));
          written = sym (ap (λ r. perform_all r s.log) before) ∙ h.written;
        }
  ]

  Step-Whole : {s t : Loggers} → Whole s → Step s t → Whole t
  Step-Whole (inl (free, f)) (take_mutex i rest n e) = inr (enter i rest f e)
  Step-Whole (inl (free, f)) (give_mutex i rest e) =
      let (x, mine, own, same) = get-steps f.left i (rw f.threads at e) in
      let clash : lock ≡ unlock = (head-eq same).0 in absurd (cc)
  Step-Whole (inl (free, f)) (output i a rest out e) =
      let (x, mine, own, same) = get-steps f.left i (rw f.threads at e) in
      absurd (subst IsOutput (sym (head-eq same).0) out)
  Step-Whole (inr h) (take_mutex i rest n e) =
      let clash : none ≡ some h.i = sym n ∙ h.held in absurd (ground arith)
  Step-Whole (inr h) (give_mutex i rest e) = inl (refl, leave h i rest e)
  Step-Whole (inr h) (output i a rest out e) = inr (write h i a rest out e)

  reach-Whole : {s : Loggers} → Reach log entries s → Whole s
  unfolding log_all
  reach-Whole start =
      inl
        (refl, record { es = []; left = entries; taken = nothing; threads = refl; written = refl })
  reach-Whole (later r step) = Step-Whole (reach-Whole r) step

  -- Threads that log, each step one byte or one operation of log_mutex by any of them: whenever the
  -- mutex is free, the console and the file hold what they held and then whole lines, the same on
  -- both in one order, as write_log writes them one at a time: those of the entries that the threads
  -- have done, each thread's in its own order.
  pub reach-log :
      {s : Loggers}
      → Reach log entries s
      → s.holder ≡ none
      → (es : List Entry) × (left : List (List Entry)) × Taken entries es left
        × (s.threads ≡ map steps_of left)
        × (s.log ≡ log_all es log)
  reach-log r free = elim (reach-Whole r) [
    | inl (_, f) ↦ (f.es, f.left, f.taken, f.threads, f.written)
    | inr h ↦ let clash : none ≡ some h.i = sym free ∙ h.held in absurd (ground arith)
  ]
