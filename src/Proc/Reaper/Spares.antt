-- ===== src/Proc/Reaper/Spares.antt =====
-- The reaper leaves the processes of jobs alone.
use mittnite.Prelude.{
  ℕ, ◌≡◌, ◌≢◌, refl, String, Option, none, some, List, [], ◌∷◌, insert, erase, nat_eq,
  lookup-insert, lookup-erase, ◌==◌, All, All-append, Bool-cases, inl, inr, arith,
}
use mittnite.Proc.WaitStatus.{decode_wait_status}
use mittnite.Proc.Reaper.{
  Registry, register_managed_pid, unregister_managed_pid, lookup_managed_pid, Waitid, zombie,
  no_child, interrupted, fails, Reaped, Processes, collect, next_zombie, reap_zombies,
}

-- In one of the rounds waitid answered the pid while the registry was this.
pub data Seen (managed : Registry) (pid : ℕ) : List (Registry × Waitid) → Type 0 where
  now : {rounds : List (Registry × Waitid)} → Seen managed pid ((managed, zombie pid) ∷ rounds)
  later :
      {round : Registry × Waitid} {rounds : List (Registry × Waitid)}
      → Seen managed pid rounds
      → Seen managed pid (round ∷ rounds)

-- `r` was reaped in a round in whose registry its pid was not, and wait4 gave its status.
pub record IsOrphan (rounds : List (Registry × Waitid)) (ps : Processes) (r : Reaped) : Type 0 where
  pub managed : Registry
  pub status : ℕ
  pub seen : Seen managed r.pid rounds
  pub unmanaged : lookup_managed_pid r.pid managed ≡ none
  pub waited : ps.wait4 r.pid ≡ some status
  pub decoded : r.fields ≡ decode_wait_status status

later_round :
    (round : Registry × Waitid) (rounds : List (Registry × Waitid)) (ps : Processes)
    (rs : List Reaped)
    → All (IsOrphan rounds ps) rs
    → All (IsOrphan (round ∷ rounds) ps) rs
later_round round rounds ps [] h = tt
later_round round rounds ps (r ∷ rs) h = (
  record {
    managed = h.0.managed;
    status = h.0.status;
    seen = later h.0.seen;
    unmanaged = h.0.unmanaged;
    waited = h.0.waited;
    decoded = h.0.decoded;
  },
  later_round round rounds ps rs h.1,
)

module _ (ps : Processes) (managed : Registry) (rounds : List (Registry × Waitid)) (pid : ℕ) where
  collect-IsOrphan :
      (o : Option ℕ)
      → ps.wait4 pid ≡ o
      → lookup_managed_pid pid managed ≡ none
      → All (IsOrphan ((managed, zombie pid) ∷ rounds) ps) (collect managed ps pid o)
  unfolding collect
  collect-IsOrphan none eq free = tt
  collect-IsOrphan (some status) eq free = (
    record {
      managed = managed;
      status = status;
      seen = now;
      unmanaged = free;
      waited = eq;
      decoded = refl;
    },
    tt,
  )

  next_zombie-IsOrphan :
      (o : Option String) (rs : List Reaped)
      → lookup_managed_pid pid managed ≡ o
      → All (IsOrphan rounds ps) rs
      → All (IsOrphan ((managed, zombie pid) ∷ rounds) ps) (next_zombie managed ps pid o rs)
  unfolding next_zombie
  next_zombie-IsOrphan (some job_name) rs eq h = tt
  next_zombie-IsOrphan none rs eq h =
      All-append (IsOrphan ((managed, zombie pid) ∷ rounds) ps)
        (collect managed ps pid (ps.wait4 pid)) rs (collect-IsOrphan (ps.wait4 pid) refl eq)
        (later_round (managed, zombie pid) rounds ps rs h)

-- Each process that a pass reaps was a zombie that waitid answered, was not in the registry at
-- that moment, and is reported with the exit that wait4 gave.
pub reap_zombies-IsOrphan :
    (ps : Processes) (rounds : List (Registry × Waitid))
    → All (IsOrphan rounds ps) (reap_zombies rounds ps)
unfolding reap_zombies
reap_zombies-IsOrphan ps [] = tt
reap_zombies-IsOrphan ps ((managed, zombie pid) ∷ rounds) = elim (Bool-cases (pid == 0)) [
  | inl none_left ↦ simp none_left tt
  | inr there ↦ rw there (
      next_zombie-IsOrphan ps managed rounds pid (lookup_managed_pid pid managed)
        (reap_zombies rounds ps) refl (reap_zombies-IsOrphan ps rounds))
]
reap_zombies-IsOrphan ps ((managed, no_child) ∷ rounds) = tt
reap_zombies-IsOrphan ps ((managed, interrupted) ∷ rounds) =
    later_round (managed, interrupted) rounds ps (reap_zombies rounds ps)
      (reap_zombies-IsOrphan ps rounds)
reap_zombies-IsOrphan ps ((managed, fails e) ∷ rounds) = tt

still_managed :
    (pid other : ℕ) (job_name other_name : String) (managed : Registry)
    → other ≢ pid
    → lookup_managed_pid pid (
        register_managed_pid other other_name
          (unregister_managed_pid other (register_managed_pid pid job_name managed)))
      ≡ some job_name
unfolding lookup_managed_pid register_managed_pid unregister_managed_pid
still_managed pid other job_name other_name managed distinct = ground (
  arith,
  lookup-insert other pid other_name (erase other (insert pid job_name managed)),
  lookup-erase other pid (insert pid job_name managed),
  lookup-insert pid pid job_name managed,
)

-- While a process is registered, the reaper ends its pass at it and reaps nothing, also after
-- another process was taken out of the registry and put in again; once the process is taken out
-- itself, it is not found in the registry.
pub managed_until_removed :
    (pid other : ℕ) (job_name other_name : String) (managed : Registry) (ps : Processes)
    (rounds : List (Registry × Waitid))
    → other ≢ pid
    → (reap_zombies
          ((
            register_managed_pid other other_name
                (unregister_managed_pid other (register_managed_pid pid job_name managed)),
            zombie pid,
          )
            ∷ rounds)
          ps
        ≡ [])
      × (lookup_managed_pid pid
            (unregister_managed_pid pid (register_managed_pid pid job_name managed))
          ≡ none)
unfolding reap_zombies next_zombie
managed_until_removed pid other job_name other_name managed ps rounds distinct = (
  rw (still_managed pid other job_name other_name managed distinct) (ground arith),
  unfold lookup_managed_pid register_managed_pid unregister_managed_pid in
      ground (arith, lookup-erase pid pid (insert pid job_name managed)),
)
