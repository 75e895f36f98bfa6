-- ===== src/Probes/Nil.antt =====
-- A probe that is to be waited for and has no kind.
use mittnite.Prelude.{◌≡◌, refl, true, none, some, List, [], ◌∷◌, string_eq, lookup, insert}
use mittnite.Config.{Probe}
use mittnite.Probes.{
  Makers, make_probe, build_loop, build_probes_from_config, filter_loop, filter_wait_probes, Exec,
  Event, ticks, panicked, wait, probe_round, after_round, add_probe, or_else, of_kind, of_mongo_db,
}

module _ {P : Type 0} (make : Makers P) where
  no_kind :
      (c : Probe)
      → c.filesystem ≡ ""
      → c.my_sql ≡ none
      → c.redis ≡ none
      → c.mongo_db ≡ none
      → c.amqp ≡ none
      → c.http ≡ none
      → c.smtp ≡ none
      → make_probe make c ≡ none
  unfolding make_probe or_else of_kind of_mongo_db
  no_kind c fs my_sql redis mongo_db amqp http smtp =
      simp (fs, my_sql, redis, mongo_db, amqp, http, smtp) refl

  -- A single probe with `wait` and without a kind is built without an error, and the first tick of
  -- Wait then calls a nil probe: the program panics, whatever probes answer.
  pub nil_probe_panics :
      (c : Probe) (exec : P → Exec) (es : List (Event P))
      → c.wait ≡ true
      → c.filesystem ≡ ""
      → c.my_sql ≡ none
      → c.redis ≡ none
      → c.mongo_db ≡ none
      → c.amqp ≡ none
      → c.http ≡ none
      → c.smtp ≡ none
      → (build_probes_from_config make (c ∷ []) ≡ ([], []))
        × (wait
              (filter_wait_probes make (c ∷ []) (build_probes_from_config make (c ∷ [])).0)
              (ticks exec ∷ es)
            ≡ some panicked)
  unfolding build_probes_from_config build_loop add_probe filter_wait_probes filter_loop wait
      probe_round after_round insert lookup
  nil_probe_panics c exec es waits fs my_sql redis mongo_db amqp http smtp =
      simp (no_kind c fs my_sql redis mongo_db amqp http smtp, waits) (refl, refl)
