-- ===== src/Proc/BaseJob/Streams/Follows.antt =====
-- What a stream holds.
use mittnite.Prelude.{
  ◌≡◌, ◌≢◌, refl, ap, true, false, none, List, [], ◌∷◌, ◌++◌, map, ℤ, ◌==◌, string_eq, Bool-cases,
  inl, inr, arith, eq_iff,
}
use mathlib.Core.List.{append-nil}
use mittnite.Config.{BaseJobConfig}
use mittnite.Proc.BaseJob.Tail.Cancelled.{seek_tail-cancelled}
use mittnite.Proc.BaseJob.Streams.{
  line, stdout_error, Turn, reads, context_done, StdFile, Stream, read_loop, opened_file,
  read_std_file, unless_empty, stream_std_out, stream_std_err, and_then, stream_std_out_and_std_err,
}

-- The context was cancelled before the file was opened.
pub record IsCancelled (f : StdFile) : Type 0 where
  pub opens : f.open_fails ≡ none
  pub at_once : f.cancelled 0 ≡ true
  pub later : List Turn
  pub turns : f.turns ≡ context_done ∷ later

-- The loop saw the context done.
abbrev pub HasEnd : List Turn → Type 0
HasEnd [] = ⊥
HasEnd (context_done ∷ ts) = Unit
HasEnd (reads p ∷ ts) = HasEnd ts

nothing_sent : Stream
nothing_sent = record { sent = []; returned = true }

module _ (c : BaseJobConfig) (tail_len : ℤ) where
  stream_std_err-cancelled :
      (f : StdFile) → IsCancelled f → stream_std_err c true tail_len f ≡ nothing_sent
  unfolding stream_std_err unless_empty read_std_file opened_file read_loop nothing_sent
  stream_std_err-cancelled f h = elim (Bool-cases (c.stderr == "")) [
    | inl empty ↦ rw empty refl
    | inr given ↦
        rw (given, h.opens, h.turns)
          (ap (λ ls. record { sent = map line ls ++ []; returned = true })
            (seek_tail-cancelled tail_len f.held f.cancelled f.present h.at_once))
  ]

  returned-follow : (ts : List Turn) → (read_loop stdout_error true ts).returned ≡ true → HasEnd ts
  unfolding read_loop
  returned-follow [] e = ground arith
  returned-follow (context_done ∷ ts) e = tt
  returned-follow (reads p ∷ ts) e = returned-follow ts e

  returned-std_out :
      (f : StdFile)
      → c.stdout ≢ ""
      → f.open_fails ≡ none
      → (stream_std_out c true tail_len f).returned ≡ true
      → HasEnd f.turns
  unfolding stream_std_out unless_empty read_std_file opened_file
  returned-std_out f named opens e =
      let given : (c.stdout == "") ≡ false = ground (arith, eq_iff c.stdout "") in
      returned-follow f.turns (rw (given, opens) at e)

  sent-and_then :
      (first next : Stream)
      → (first.returned ≡ true → next ≡ nothing_sent)
      → (and_then first next).sent ≡ first.sent
  unfolding and_then nothing_sent
  sent-and_then first next e = elim (Bool-cases first.returned) [
    | inl returned ↦ rw (returned, e returned) (append-nil first.sent)
    | inr runs ↦ rw runs refl
  ]

  -- A stream that follows the files sends nothing but what is in stdout, where that is given and
  -- opens: its goroutine turns to stderr only once the reading of stdout has returned, which is when
  -- the context is done; and stderr, whose file opens, finds the context done then.
  pub sent-follow :
      (out_file err_file : StdFile)
      → c.stdout ≢ ""
      → out_file.open_fails ≡ none
      → (HasEnd out_file.turns → IsCancelled err_file)
      → (stream_std_out_and_std_err c true tail_len out_file err_file).sent
        ≡ (stream_std_out c true tail_len out_file).sent
  unfolding stream_std_out_and_std_err
  sent-follow out_file err_file named opens stays = elim (Bool-cases (c.stdout == c.stderr)) [
    | inl same ↦ rw same refl
    | inr differ ↦ rw differ (
        sent-and_then (stream_std_out c true tail_len out_file)
          (stream_std_err c true tail_len err_file)
          (λ returned.
            stream_std_err-cancelled err_file
              (stays (returned-std_out out_file named opens returned))))
  ]
