-- ===== src/Proc/BaseJob/Tail/Last.antt =====
-- The tail of a log file is its last lines.
use mittnite.Prelude.{
  ℕ, zero, suc, ◌-◌, ◌<◌, ◌≡◌, refl, sym, ◌∙◌, ap, Bool, false, List, [], ◌∷◌, ◌++◌, map, length,
  length-append, drop, leb, arith, pos, Bool-cases, inl, inr, All,
}
use mathlib.Core.List.{append-nil, append_assoc}
use mittnite.Proc.BaseJob.Tail.{
  push_line, scan_lines, send_lines, scan_tail, seek_tail, numbered, as_held,
}

module _ {A : Type 0} where
  -- The last `n` lines.
  abbrev pub last_lines : ℕ → List A → List A
  last_lines n lines = drop (length lines - n) lines

  drop_more : (k : ℕ) (xs : List A) → drop 1 (drop k xs) ≡ drop (suc k) xs
  drop_more zero xs = refl
  drop_more (suc k) [] = refl
  drop_more (suc k) (x ∷ xs) = drop_more k xs

  drop-concat :
      (k : ℕ) (xs : List A) (a : A)
      → k < suc (length xs)
      → drop k xs ++ a ∷ [] ≡ drop k (xs ++ a ∷ [])
  drop-concat zero xs a h = refl
  drop-concat (suc k) [] a h = ground arith
  drop-concat (suc k) (x ∷ xs) a h = drop-concat k xs a (omega arith)

  length-drop : (k : ℕ) (xs : List A) → length (drop k xs) ≡ length xs - k
  length-drop zero xs = omega arith
  length-drop (suc k) [] = omega arith
  length-drop (suc k) (x ∷ xs) = length-drop k xs ∙ omega arith

  push_line-last_lines :
      (n : ℕ) (seen : List A) (a : A)
      → 0 < n
      → push_line n (last_lines n seen) a ≡ last_lines n (seen ++ a ∷ [])
  unfolding push_line
  push_line-last_lines n seen a h =
      elim (Bool-cases (leb n (length (drop (length seen - n) seen)))) [
        | inl full ↦ rw full (
            ap (λ xs. xs ++ a ∷ []) (drop_more (length seen - n) seen)
            ∙ drop-concat (suc (length seen - n)) seen a
                (ground (arith, full, length-drop (length seen - n) seen))
            ∙ ap (λ k. drop k (seen ++ a ∷ [])) {x = suc (length seen - n)}
                (ground
                  (arith, full, length-drop (length seen - n) seen, length-append seen (a ∷ []))))
        | inr room ↦ rw room (
            drop-concat (length seen - n) seen a (omega arith)
            ∙ ap (λ k. drop k (seen ++ a ∷ [])) {x = length seen - n}
                (ground
                  (arith, room, length-drop (length seen - n) seen, length-append seen (a ∷ []))))
      ]

  scan_lines-last_lines :
      (n : ℕ) (lines seen : List A)
      → 0 < n
      → scan_lines n lines (last_lines n seen) ≡ last_lines n (seen ++ lines)
  unfolding scan_lines
  scan_lines-last_lines n [] seen h = ap (last_lines n) (sym (append-nil seen))
  scan_lines-last_lines n (line ∷ lines) seen h =
      ap (scan_lines n lines) (push_line-last_lines n seen line h)
      ∙ scan_lines-last_lines n lines (seen ++ line ∷ []) h
      ∙ ap (last_lines n) (append_assoc seen (line ∷ []) lines)

  send_lines-open :
      (done : ℕ → Bool) (open_ctx : (i : ℕ) → done i ≡ false) (i : ℕ) (lines : List A)
      → send_lines done i lines ≡ lines
  unfolding send_lines
  send_lines-open done open_ctx i [] = refl
  send_lines-open done open_ctx i (line ∷ lines) =
      rw (open_ctx i) (ap (λ xs. line ∷ xs) (send_lines-open done open_ctx (suc i) lines))

module _ {A : Type 0} (held : ℕ → A → A) where
  -- The slice of each line, the first being the i-th of the file, still reads as the line.
  abbrev pub AreIntact : ℕ → List A → Type 0
  AreIntact i lines = All (λ (j, line). held j line ≡ line) (numbered i lines)

  length-numbered : (i : ℕ) (lines : List A) → length (numbered i lines) ≡ length lines
  unfolding numbered
  length-numbered i [] = refl
  length-numbered i (line ∷ lines) = ap suc (length-numbered (suc i) lines)

  map-drop :
      (k : ℕ) (xs : List (ℕ × A)) → map (as_held held) (drop k xs) ≡ drop k (map (as_held held) xs)
  map-drop zero xs = refl
  map-drop (suc k) [] = refl
  map-drop (suc k) (x ∷ xs) = map-drop k xs

  map-numbered :
      (i : ℕ) (lines : List A) → AreIntact i lines → map (as_held held) (numbered i lines) ≡ lines
  unfolding numbered as_held
  map-numbered i [] h = refl
  map-numbered i (line ∷ lines) h = cc (h.0, map-numbered (suc i) lines h.1)

  -- While the context is not cancelled, and if the slices of the lines are not overwritten by the
  -- rest of the scan, the tail of a positive length is the last lines of the file, oldest first,
  -- and all of them where there are fewer.
  pub seek_tail-last_lines :
      (n : ℕ) (done : ℕ → Bool) (lines : List A)
      → ((i : ℕ) → done i ≡ false)
      → AreIntact 0 lines
      → seek_tail (pos (suc n)) held done lines ≡ last_lines (suc n) lines
  unfolding seek_tail scan_tail
  seek_tail-last_lines n done lines open_ctx intact =
      send_lines-open done open_ctx 0
        (map (as_held held) (scan_lines (suc n) (numbered 0 lines) []))
      ∙ ap (map (as_held held)) (
          ap (scan_lines (suc n) (numbered 0 lines)) nothing_seen
          ∙ scan_lines-last_lines (suc n) (numbered 0 lines) [] (omega arith))
      ∙ map-drop (length (numbered 0 lines) - suc n) (numbered 0 lines)
      ∙ cc (length-numbered 0 lines, map-numbered 0 lines intact)
    where
      nothing_seen : [] ≡ last_lines {A = ℕ × A} (suc n) []
      nothing_seen = ap (λ k. drop k []) {x = 0} (omega arith)
