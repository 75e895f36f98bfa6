-- ===== src/Proc/BaseJob/Streams/Once.antt =====
-- A stream that does not follow the files.
use mittnite.Prelude.{
  String, ◌≡◌, ◌≢◌, refl, sym, ap, ◌∙◌, true, false, none, List, [], ◌∷◌, ◌++◌, map, Bool-cases,
  inl, inr, ◌==◌, string_eq, eq_iff, arith, ℤ,
}
use mathlib.Core.List.{append_assoc, map-append}
use mittnite.Config.{BaseJobConfig}
use mittnite.Proc.BaseJob.Tail.{seek_tail}
use mittnite.Proc.BaseJob.Streams.{
  Item, line, stdout_error, Offer, taken, nobody_waits, context_ended, StdFile, Stream, Pass, Turn,
  reads, read_failure, read_lines, read_pass, read_loop, opened_file, read_std_file, unless_empty,
  stream_std_out, stream_std_err, and_then, stream_std_out_and_std_err,
}

-- The lines before the first that is not taken.
pub delivered : List (String × Offer) → List String
delivered [] = []
delivered ((l, taken) ∷ ls) = l ∷ delivered ls
delivered ((l, context_ended) ∷ ls) = []
delivered ((l, nobody_waits) ∷ ls) = []

read_lines-delivered :
    (ls : List (String × Offer)) → read_lines false [] ls ≡ map line (delivered ls)
unfolding read_lines delivered
read_lines-delivered [] = refl
read_lines-delivered ((l, taken) ∷ ls) = ap (λ is. line l ∷ is) (read_lines-delivered ls)
read_lines-delivered ((l, context_ended) ∷ ls) = refl
read_lines-delivered ((l, nobody_waits) ∷ ls) = refl

-- The lines of a file that a stream sends when the loop reads it once.
abbrev pub lines_once : ℤ → StdFile → Pass → List String
lines_once tail_len f p = seek_tail tail_len f.held f.cancelled f.present ++ delivered p.lines

module _ (c : BaseJobConfig) (tail_len : ℤ) (f : StdFile) (p : Pass) (later : List Turn) where
  std_out-once :
      c.stdout ≢ ""
      → f.open_fails ≡ none
      → f.turns ≡ reads p ∷ later
      → p.failure ≡ none
      → stream_std_out c false tail_len f ≡ record {
        sent = map line (lines_once tail_len f p) ++ stdout_error none ∷ [];
        returned = true;
      }
  unfolding stream_std_out unless_empty read_std_file opened_file read_loop read_pass read_failure
  std_out-once named opens turns fine =
      let given : (c.stdout == "") ≡ false = ground (arith, eq_iff c.stdout "") in
      rw (given, opens, turns, fine, read_lines-delivered p.lines)
        (ap (λ is. record { sent = is; returned = true })
          (sym (
              append_assoc (map line (seek_tail tail_len f.held f.cancelled f.present))
                (map line (delivered p.lines)) (stdout_error none ∷ []))
            ∙ ap (λ is. is ++ stdout_error none ∷ [])
                (sym (
                  map-append line (seek_tail tail_len f.held f.cancelled f.present)
                    (delivered p.lines)))))

  and_then-once :
      (first next : Stream) (xs : List Item)
      → first ≡ record { sent = xs ++ stdout_error none ∷ []; returned = true }
      → (and_then first next).sent ≡ xs ++ stdout_error none ∷ next.sent
  unfolding and_then
  and_then-once first next xs e = rw e (append_assoc xs (stdout_error none ∷ []) next.sent)

  -- What the stream of both files begins with: the tail of stdout, its lines up to the first that
  -- nobody waits for, and the end of stdout.
  pub sent-once :
      (err_file : StdFile)
      → c.stdout ≢ ""
      → f.open_fails ≡ none
      → f.turns ≡ reads p ∷ later
      → p.failure ≡ none
      → (is : List Item) × ((stream_std_out_and_std_err c false tail_len f err_file).sent
          ≡ map line (lines_once tail_len f p) ++ stdout_error none ∷ is)
  unfolding stream_std_out_and_std_err
  sent-once err_file named opens turns fine = elim (Bool-cases (c.stdout == c.stderr)) [
    | inl same ↦ rw same ([], ap (λ s. s.sent) (std_out-once named opens turns fine))
    | inr differ ↦ rw differ (
      (stream_std_err c false tail_len err_file).sent,
      and_then-once (stream_std_out c false tail_len f) (stream_std_err c false tail_len err_file)
          (map line (lines_once tail_len f p)) (std_out-once named opens turns fine),
    )
  ]
