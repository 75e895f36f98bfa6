-- ===== src/Proc/BaseJob/Tail/Cancelled.antt =====
-- The tail of a log file under a context that is done.
use mittnite.Prelude.{
  ℕ, zero, suc, ◌≡◌, refl, Bool, true, String, List, [], ◌∷◌, map, ℤ, pos, negsuc,
}
use mittnite.Proc.BaseJob.Tail.{seek_tail, scan_tail, send_lines, scan_lines, numbered, as_held}

send_lines-cancelled :
    (cancelled : ℕ → Bool) (ls : List String) → cancelled 0 ≡ true → send_lines cancelled 0 ls ≡ []
unfolding send_lines
send_lines-cancelled cancelled [] h = refl
send_lines-cancelled cancelled (l ∷ ls) h = rw h refl

pub seek_tail-cancelled :
    (tail_len : ℤ) (held : ℕ → String → String) (cancelled : ℕ → Bool) (ls : List String)
    → cancelled 0 ≡ true
    → seek_tail tail_len held cancelled ls ≡ []
unfolding seek_tail scan_tail
seek_tail-cancelled (negsuc n) held cancelled ls h = refl
seek_tail-cancelled (pos zero) held cancelled ls h = refl
seek_tail-cancelled (pos (suc m)) held cancelled ls h =
    send_lines-cancelled cancelled (map (as_held held) (scan_lines (suc m) (numbered 0 ls) [])) h
