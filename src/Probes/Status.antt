-- ===== src/Probes/Status.antt =====
-- What the status request reports, and when it is answered.
use mittnite.Prelude.{
  ℕ, zero, suc, ◌<◌, ◌≡◌, refl, ap, String, Bool, true, false, ◌&&◌, Option, none, some, List, [],
  ◌∷◌, arith, length, map, insert, string_eq,
}
use mittnite.Probes.{
  ProbeResult, StatusEvent, result, timeout, StatusReply, gather, reply, handle_status, unanswered,
}

-- The next events are this many results, and all of them are good.
abbrev pub GoodResults : ℕ → List StatusEvent → Type 0
GoodResults zero es = Unit
GoodResults (suc n) [] = ⊥
GoodResults (suc n) (result r ∷ es) = (r.ok ≡ true) × GoodResults n es
GoodResults (suc n) (timeout ∷ es) = ⊥

gather_good :
    (n : ℕ) (es : List StatusEvent) (success : Bool) (ps qs : List (String × ProbeResult))
    → gather n es success ps ≡ some (true, qs)
    → (success ≡ true) × GoodResults n es
unfolding gather
gather_good zero es success ps qs e = (ground arith, tt)
gather_good (suc n) [] success ps qs e = ground arith
gather_good (suc n) (result r ∷ es) success ps qs e =
    let (both, good) = gather_good n es (success && r.ok) (insert r.name r ps) qs e in
    (ground arith, (ground arith, good))
gather_good (suc n) (timeout ∷ es) success ps qs e =
    let (never, good) = gather_good n es false ps qs e in ground (arith, never)

gather_blocks :
    (n : ℕ) (es : List StatusEvent) (success : Bool) (ps : List (String × ProbeResult))
    → length es < n
    → gather n es success ps ≡ none
unfolding gather
gather_blocks zero es success ps h = ground arith
gather_blocks (suc n) [] success ps h = refl
gather_blocks (suc n) (result r ∷ es) success ps h =
    gather_blocks n es (success && r.ok) (insert r.name r ps) (omega arith)
gather_blocks (suc n) (timeout ∷ es) success ps h = gather_blocks n es false ps (omega arith)

reply_200 :
    (n : ℕ) (es : List StatusEvent) (x : Option (Bool × List (String × ProbeResult)))
    (r : StatusReply)
    → ((qs : List (String × ProbeResult)) → x ≡ some (true, qs) → GoodResults n es)
    → reply x ≡ some r
    → r.code ≡ 200
    → GoodResults n es
unfolding reply
reply_200 n es none r good e code = ground arith
reply_200 n es (some (true, qs)) r good e code = good qs refl
reply_200 n es (some (false, qs)) r good e code = absurd (not_503 r qs e code)
  where
    not_503 :
        (r : StatusReply) (qs : List (String × ProbeResult))
        → some (record { code = 503; probes = qs }) ≡ some r
        → ¬ (r.code ≡ 200)
    not_503 r qs e code = ground arith

-- The status is 200 only if the results of as many probes as there are came before the timer, and
-- all of them were good.
pub status_200-GoodResults :
    (names : List String) (es : List StatusEvent) (r : StatusReply)
    → handle_status names es ≡ some r
    → r.code ≡ 200
    → GoodResults (length names) es
unfolding handle_status
status_200-GoodResults names es r e code =
    reply_200 (length names) es (gather (length names) es true (map unanswered names)) r
      (λ qs found. (gather_good (length names) es true (map unanswered names) qs found).1) e code

-- The request is not answered while there were fewer events than there are probes. The timer is one
-- event, so the request is not answered after the timer either while more than one probe hangs.
pub status_blocks :
    (names : List String) (es : List StatusEvent)
    → length es < length names
    → handle_status names es ≡ none
unfolding handle_status reply
status_blocks names es few =
    ap reply (gather_blocks (length names) es true (map unanswered names) few)
