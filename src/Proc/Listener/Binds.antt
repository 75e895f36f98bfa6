-- ===== src/Proc/Listener/Binds.antt =====
-- A listener that cannot be bound.
use mittnite.Prelude.{
  ℕ, ◌+◌, ◌<◌, ◌≡◌, refl, sym, ap, ◌∙◌, subst, String, false, Option, none, some, List, [], ◌∷◌,
  ◌++◌, ok, err, All, length, arith, ◌==◌, nat_eq,
}
use mittnite.Config
use mittnite.Proc.LazyJob.{LazyJob}
use mittnite.Proc.Listener.{
  Listener, get_proto, Deprecation, unused, replaces, ignored, deprecation, undeprecated, listening,
  new_listener, next_listener, start_listeners, is_none, after_loop, lazy_run, returned,
}

-- The socket of the listener is bound, or the error of binding it.
abbrev pub bound : (String → String → Option String) → Config.Listener → Option String
bound listen c = listen (get_proto c.listen_protocol) c.address

module _ (listen : String → String → Option String) (job : LazyJob) where
  bound-undeprecated :
      (c : Config.Listener) (d : Deprecation) → bound listen (undeprecated c d) ≡ bound listen c
  unfolding undeprecated
  bound-undeprecated c unused = refl
  bound-undeprecated c replaces = refl
  bound-undeprecated c ignored = refl

  new_listener-bound :
      (c : Config.Listener)
      → new_listener listen job c ≡ listening job (undeprecated c (deprecation c)) (bound listen c)
  unfolding new_listener
  new_listener-bound c =
      ap (listening job (undeprecated c (deprecation c))) (bound-undeprecated c (deprecation c))

  new_listener-fails :
      (c : Config.Listener) (e : String)
      → bound listen c ≡ some e
      → new_listener listen job c ≡ err e
  unfolding listening
  new_listener-fails c e fails = new_listener-bound c ∙ rw fails refl

  new_listener-listens :
      (c : Config.Listener)
      → bound listen c ≡ none
      → (l : Listener) × (new_listener listen job c ≡ ok l)
  unfolding listening
  new_listener-listens c free = (
    record { config = undeprecated c (deprecation c); spin_up_timeout = job.spin_up_timeout },
    new_listener-bound c ∙ rw free refl,
  )

  start_listeners-front :
      (front rest : List Config.Listener) (bad : Config.Listener) (e : String) (n : ℕ)
      → All (λ c. bound listen c ≡ none) front
      → bound listen bad ≡ some e
      → start_listeners (new_listener listen job) (front ++ bad ∷ rest) n
        ≡ (n + length front, some e)
  unfolding start_listeners
  start_listeners-front [] rest bad e n free fails =
      ap (next_listener n (start_listeners (new_listener listen job) rest (n + 1)))
        (new_listener-fails bad e fails)
      ∙ ap (λ k. (k, some e)) {x = n} (omega arith)
  start_listeners-front (c ∷ front) rest bad e n free fails =
      let (l, made) = new_listener-listens c free.0 in
      ap (next_listener n (start_listeners (new_listener listen job) (front ++ bad ∷ rest) (n + 1)))
        made
      ∙ start_listeners-front front rest bad e (n + 1) free.1 fails
      ∙ ap (λ k. (k, some e)) {x = n + 1 + length front} (omega arith)

  -- The error of a listener that cannot be bound ends LazyJob.Run, without the watcher that stops
  -- an idle process; but the error is not returned while one of the listeners bound before it still runs.
  pub lazy_run-waits :
      (front rest : List Config.Listener) (bad : Config.Listener) (e : String) (ended : ℕ)
      → job.config.listeners ≡ front ++ bad ∷ rest
      → All (λ c. bound listen c ≡ none) front
      → bound listen bad ≡ some e
      → ended < length front
      → ((lazy_run listen job).result ≡ some e)
        × ((lazy_run listen job).watches_idle ≡ false)
        × (returned (lazy_run listen job) ended ≡ none)
  unfolding lazy_run returned after_loop is_none
  lazy_run-waits front rest bad e ended listeners free fails before =
      subst
        (λ (x : ℕ × Option String).
          ((after_loop x).result ≡ some e)
          × ((after_loop x).watches_idle ≡ false)
          × (returned (after_loop x) ended ≡ none))
        (sym (
          ap (λ cs. start_listeners (new_listener listen job) cs 0) listeners
          ∙ start_listeners-front front rest bad e 0 free fails))
        (refl, refl, rw apart refl)
    where
      apart : (ended == 0 + length front) ≡ false
      apart = ground (arith, before)
