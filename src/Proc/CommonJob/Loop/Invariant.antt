-- ===== src/Proc/CommonJob/Loop/Invariant.antt =====
-- A predicate of the restart loop that each round keeps holds whatever the rounds are.
use mittnite.Prelude.{Bool, true, false, none, List, [], ◌∷◌, Bool-cases, inl, inr}
use mittnite.Proc.CommonJob.Loop.{
  Round, LoopState, Progress, running, returned, run_round, is_stopping, run_loop,
}

module _ {ℓ} (P : Progress → Type ℓ) (stays : (s : LoopState) → P (running s) → P (returned s none))
    (round : (s : LoopState) (r : Round) → P (running s) → P (run_round s r)) where
  pub run_loop-keeps : (rs : List Round) (s : LoopState) → P (running s) → P (run_loop rs s)
  unfolding run_loop
  run_loop-keeps [] s h = elim (Bool-cases (is_stopping s)) [
    | inl stops ↦ rw stops (stays s h)
    | inr goes ↦ rw goes h
  ]
  run_loop-keeps (r ∷ rs) s h = go (is_stopping s) (run_round s r) (round s r h) (run_loop-keeps rs)
    where
      go :
          (b : Bool) (p : Progress)
          → P p
          → ((t : LoopState) → P (running t) → P (run_loop rs t))
          → P (elim b [
            | true ↦ returned s none
            | false ↦ elim p [ returned t e ↦ returned t e | running t ↦ run_loop rs t ]
          ])
      go true p q rest = stays s h
      go false (returned t e) q rest = q
      go false (running t) q rest = rest t q
