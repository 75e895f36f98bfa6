-- ===== src/Probes/Ready.antt =====
-- When the wait for readiness ends.
use mittnite.Prelude.{
  ◌≡◌, refl, ap, String, Bool, true, false, Option, none, some, List, [], ◌∷◌, ◌++◌, arith, All,
  Bool-cases, inl, inr, nat_eq,
}
use mittnite.Probes.{
  Exec, alive, path_error, fails, Round, ready, fatal, nil_probe, Event, ticks, signals, done,
  interrupted, exited, stops, probe_round, after_round, wait,
}

module _ {P : Type 0} where
  -- The probe is there and answers well.
  abbrev pub IsAlive : (P → Exec) → String × Option P → Type 0
  IsAlive exec (name, none) = ⊥
  IsAlive exec (name, some p) = exec p ≡ alive

  -- No signal that ends the wait is among these events.
  abbrev pub IsQuiet : Event P → Type 0
  IsQuiet (ticks exec) = Unit
  IsQuiet (signals sig) = stops sig ≡ false

  -- The wait ended at a tick at which each probe was alive, and no signal to end it came before.
  pub record Readied (ps : List (String × Option P)) (es : List (Event P)) : Type 0 where
    pub before : List (Event P)
    pub exec : P → Exec
    pub after : List (Event P)
    pub events : es ≡ before ++ ticks exec ∷ after
    pub quiet : All IsQuiet before
    pub all_alive : All (IsAlive exec) ps

  one_alive :
      (exec : P → Exec) (p : P) (x : Exec) (on off : Round) (ps : List (String × Option P))
      (so_far : Bool)
      → exec p ≡ x
      → (on ≡ ready true → (so_far ≡ true) × All (IsAlive exec) ps)
      → (off ≡ ready true → (false ≡ true) × All (IsAlive exec) ps)
      → elim x [ alive ↦ on | path_error ↦ fatal | fails m ↦ off ] ≡ ready true
      → (so_far ≡ true) × ((exec p ≡ alive) × All (IsAlive exec) ps)
  one_alive exec p alive on off ps so_far here if_on if_off e =
      let (so_far_true, rest) = if_on e in (so_far_true, (here, rest))
  one_alive exec p path_error on off ps so_far here if_on if_off e = ground arith
  one_alive exec p (fails m) on off ps so_far here if_on if_off e =
      let (never, rest) = if_off e in ground (arith, never)

  round-IsAlive :
      (exec : P → Exec) (ps : List (String × Option P)) (so_far : Bool)
      → probe_round exec ps so_far ≡ ready true
      → (so_far ≡ true) × All (IsAlive exec) ps
  unfolding probe_round
  round-IsAlive exec [] so_far e = (ground arith, tt)
  round-IsAlive exec ((name, none) ∷ ps) so_far e = ground arith
  round-IsAlive exec ((name, some p) ∷ ps) so_far e =
      one_alive exec p (exec p) (probe_round exec ps so_far) (probe_round exec ps false) ps so_far
        refl (round-IsAlive exec ps so_far) (round-IsAlive exec ps false) e

  after_event :
      {ps : List (String × Option P)} {es : List (Event P)} (ev : Event P)
      → IsQuiet ev
      → Readied ps es
      → Readied ps (ev ∷ es)
  after_event ev q r = record {
    before = ev ∷ r.before;
    exec = r.exec;
    after = r.after;
    events = ap (λ xs. ev ∷ xs) r.events;
    quiet = (q, r.quiet);
    all_alive = r.all_alive;
  }

  after_tick :
      (ps : List (String × Option P)) (es : List (Event P)) (exec : P → Exec) (r : Round)
      → probe_round exec ps true ≡ r
      → (wait ps es ≡ some done → Readied ps es)
      → after_round r (wait ps es) ≡ some done
      → Readied ps (ticks exec ∷ es)
  unfolding after_round
  after_tick ps es exec (ready true) here rest e = record {
    before = [];
    exec = exec;
    after = es;
    events = refl;
    quiet = tt;
    all_alive = (round-IsAlive exec ps true here).1;
  }
  after_tick ps es exec (ready false) here rest e = after_event (ticks exec) tt (rest e)
  after_tick ps es exec fatal here rest e = ground arith
  after_tick ps es exec nil_probe here rest e = ground arith

  -- Wait finds the probes ready only at a tick at which each probe to wait for is there and answers
  -- well, and before which no SIGTERM or SIGINT came.
  pub wait-Readied :
      (ps : List (String × Option P)) (es : List (Event P)) → wait ps es ≡ some done → Readied ps es
  unfolding wait after_round
  wait-Readied ps [] e = ground arith
  wait-Readied ps (ticks exec ∷ es) e =
      after_tick ps es exec (probe_round exec ps true) refl (wait-Readied ps es) e
  wait-Readied ps (signals sig ∷ es) e = elim (Bool-cases (stops sig)) [
    | inl ends ↦ absurd (not_done (rw ends at e))
    | inr goes_on ↦ after_event (signals sig) goes_on (wait-Readied ps es (rw goes_on at e))
  ]
    where
      not_done : ¬ (some interrupted ≡ some done)
      not_done e = ground arith

  -- A path that does not exist ends the wait at once.
  pub exited-wait :
      (n : String) (p : P) (ps : List (String × Option P)) (exec : P → Exec) (es : List (Event P))
      → exec p ≡ path_error
      → wait ((n, some p) ∷ ps) (ticks exec ∷ es) ≡ some exited
  unfolding wait probe_round after_round
  exited-wait n p ps exec es missing =
      ap
        (λ x.
          after_round
            (elim x [
              | alive ↦ probe_round exec ps true
              | path_error ↦ fatal
              | fails e ↦ probe_round exec ps false
            ])
            (wait ((n, some p) ∷ ps) es))
        missing
