-- ===== src/Proc/BaseJob/Output/Lines.antt =====
-- What arrives in the log.
use mittnite.Prelude.{ℕ, ◌≡◌, refl, sym, ◌∙◌, ap, Bool, true, false, List, [], ◌∷◌, ◌++◌, arith}
use mathlib.Core.List.{append-nil, append_assoc}
use mittnite.Proc.BaseJob.Output.{
  written, Chunk, Style, Forwarder, decoration, line_buffer, write_to, write_line, forward_chunk,
  forward_output_from, forward_output_of,
}

-- A line of the process: the pieces that filled the read buffer, and its last bytes, each with the
-- time at which it was read.
pub record Line : Type 0 where
  pub pieces : List (List ℕ × List ℕ)
  pub last : List ℕ
  pub last_time : List ℕ

abbrev chunk : Bool → List ℕ → List ℕ → Chunk
chunk is_prefix bytes time = record {
  line = bytes;
  is_prefix = is_prefix;
  time = time;
  outcome = written;
}

abbrev piece_chunks : List (List ℕ × List ℕ) → List Chunk → List Chunk
piece_chunks [] rest = rest
piece_chunks ((bytes, time) ∷ ps) rest = chunk true bytes time ∷ piece_chunks ps rest

-- How ReadLine hands out some lines, where each write succeeds.
abbrev pub chunks_of : List Line → List Chunk
chunks_of [] = []
chunks_of (l ∷ ls) = piece_chunks l.pieces (chunk false l.last l.last_time ∷ chunks_of ls)

abbrev joined : List (List ℕ × List ℕ) → List ℕ → List ℕ
joined [] last = last
joined ((bytes, time) ∷ ps) last = bytes ++ joined ps last

abbrev first_time : List (List ℕ × List ℕ) → List ℕ → List ℕ
first_time [] last_time = last_time
first_time ((bytes, time) ∷ ps) last_time = time

-- The lines as the log is to hold them: each decorated once, with the time of its first bytes, and
-- ended by a newline.
abbrev pub log_of : Style → List Line → List ℕ
log_of s [] = []
log_of s (l ∷ ls) =
    (decoration s (first_time l.pieces l.last_time) ++ (joined l.pieces l.last ++ 10 ∷ []))
    ++ log_of s ls

abbrev holding : Bool → List ℕ → Forwarder
holding continuation target = record {
  continuation = continuation;
  write_failed = false;
  discards = false;
  target = target;
  errors = 0;
}

module _ (s : Style) where
  within_line :
      (ps : List (List ℕ × List ℕ)) (last time t : List ℕ) (rest : List Chunk)
      → forward_output_from s (holding true t) (piece_chunks ps (chunk false last time ∷ rest))
        ≡ forward_output_from s (holding false (t ++ (joined ps last ++ 10 ∷ []))) rest
  unfolding forward_output_from forward_chunk line_buffer write_line write_to
  within_line [] last time t rest = refl
  within_line ((bytes, at) ∷ ps) last time t rest =
      within_line ps last time (t ++ (bytes ++ [])) rest
      ∙ ap (λ xs. forward_output_from s (holding false xs) rest)
          (rw append-nil (
            append_assoc t bytes (joined ps last ++ 10 ∷ [])
            ∙ ap (λ xs. t ++ xs) (sym (append_assoc bytes (joined ps last) (10 ∷ [])))))

  whole_line :
      (ps : List (List ℕ × List ℕ)) (last time t : List ℕ) (rest : List Chunk)
      → forward_output_from s (holding false t) (piece_chunks ps (chunk false last time ∷ rest))
        ≡ forward_output_from s
            (holding false
              (t ++ (decoration s (first_time ps time) ++ (joined ps last ++ 10 ∷ []))))
            rest
  unfolding forward_output_from forward_chunk line_buffer write_line write_to
  whole_line [] last time t rest = refl
  whole_line ((bytes, at) ∷ ps) last time t rest =
      within_line ps last time (t ++ (decoration s at ++ (bytes ++ []))) rest
      ∙ ap (λ xs. forward_output_from s (holding false xs) rest)
          (rw append-nil (
            append_assoc t (decoration s at ++ bytes) (joined ps last ++ 10 ∷ [])
            ∙ ap (λ xs. t ++ xs)
                (append_assoc (decoration s at) bytes (joined ps last ++ 10 ∷ [])
                  ∙ ap (λ xs. decoration s at ++ xs)
                      (sym (append_assoc bytes (joined ps last) (10 ∷ []))))))

  all_lines :
      (ls : List Line) (t : List ℕ)
      → (forward_output_from s (holding false t) (chunks_of ls)).target ≡ t ++ log_of s ls
  unfolding forward_output_from
  all_lines [] t = sym (append-nil t)
  all_lines (l ∷ ls) t =
      ap (λ f. f.target) (whole_line l.pieces l.last l.last_time t (chunks_of ls))
      ∙ all_lines ls (
          t
          ++ (decoration s (first_time l.pieces l.last_time)
              ++ (joined l.pieces l.last ++ 10 ∷ [])))
      ∙ append_assoc t
          (decoration s (first_time l.pieces l.last_time) ++ (joined l.pieces l.last ++ 10 ∷ []))
          (log_of s ls)

  -- While writes succeed, the log gets each line of the process once, with its decoration in front
  -- and a newline at its end, however the read buffer cuts the lines into pieces.
  pub forward_output_of-lines :
      (ls : List Line) → (forward_output_of s (chunks_of ls)).target ≡ log_of s ls
  unfolding forward_output_of
  forward_output_of-lines ls = all_lines ls []

  chunk_discarded :
      (f : Forwarder) (c : Chunk)
      → f.discards ≡ true
      → ((forward_chunk s f c).target ≡ f.target)
        × ((forward_chunk s f c).errors ≡ f.errors)
        × ((forward_chunk s f c).discards ≡ true)
  unfolding forward_chunk write_line
  chunk_discarded f c d = ground arith

  -- After the target was found closed, it gets nothing more and no error is logged, whatever the
  -- process writes.
  pub discards_after_close :
      (f : Forwarder) (cs : List Chunk)
      → f.discards ≡ true
      → ((forward_output_from s f cs).target ≡ f.target)
        × ((forward_output_from s f cs).errors ≡ f.errors)
        × ((forward_output_from s f cs).discards ≡ true)
  unfolding forward_output_from
  discards_after_close f [] d = (refl, refl, d)
  discards_after_close f (c ∷ cs) d =
      let (target, errors, closed) = chunk_discarded f c d in
      let rest = discards_after_close (forward_chunk s f c) cs closed in
      (rest.0 ∙ target, rest.1 ∙ errors, rest.2)
