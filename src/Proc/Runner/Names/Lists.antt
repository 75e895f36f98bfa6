-- ===== src/Proc/Runner/Names/Lists.antt =====
-- Lists of references with distinct names, under the two edits that the runner makes.
use mittnite.Prelude.{
  ℕ, ◌≡◌, refl, sym, subst, String, false, List, [], ◌∷◌, ◌++◌, map, arith, ◌==◌, string_eq, eq_iff,
  Bool-cases, inl, inr, Option, some,
}
use mathlib.Core.HLevel.{⊥_prop}
use mathlib.Core.Logic.Or
use mathlib.Core.List.{
  Perm, Mem, Nodup, Nodup-cons, mem-cons, mem-map_of_mem, not-mem-nil, perm_middle, append-nil,
}
use mathlib.Core.List.Perm
use mittnite.Proc.Runner.{has_name, last_or, drop_last, replace_by_last, swap_remove, find_by_name}

module _ (name : ℕ → String) where
  pub not-mem_of_has_name :
      (n : String) (xs : List ℕ) → has_name name n xs ≡ false → ¬ Mem n (map name xs)
  unfolding has_name
  not-mem_of_has_name n [] e m = not-mem-nil m
  not-mem_of_has_name n (x ∷ xs) e m =
      Or.elim ⊥_prop (mem-cons.0 m) (λ (p : n ≡ name x). ground (arith, eq_iff (name x) n))
        (not-mem_of_has_name n xs (ground arith))

  -- A job that is not there yet goes to the end.
  pub Nodup-concat :
      (xs : List ℕ) (j : ℕ)
      → Nodup (map name xs)
      → has_name name (name j) xs ≡ false
      → Nodup (map name (xs ++ j ∷ []))
  Nodup-concat xs j d new =
      Perm.nodup (Perm.map name (Perm.symm (perm_middle xs []))) (
        Nodup-cons.1 (not-mem_of_has_name (name j) (xs ++ []) (rw append-nil new), rw append-nil d))

  drop_last-last : (x : ℕ) (xs : List ℕ) → Perm (x ∷ xs) (last_or x xs ∷ drop_last (x ∷ xs))
  unfolding last_or drop_last
  drop_last-last x [] = Perm.refl (x ∷ [])
  drop_last-last x (y ∷ ys) =
      Perm.trans (Perm.cons x (drop_last-last y ys))
        (Perm.swap (last_or y ys) x (drop_last (y ∷ ys)))

  replace_by_last-perm : (xs : List ℕ) → Perm xs (replace_by_last xs)
  unfolding replace_by_last
  replace_by_last-perm [] = Perm.refl []
  replace_by_last-perm (x ∷ xs) = drop_last-last x xs

  -- Moving the last job into the gap only reorders what is left.
  pub swap_remove-perm :
      (n : String) (xs : List ℕ) (j : ℕ)
      → find_by_name name n xs ≡ some j
      → Perm xs (j ∷ swap_remove name n xs)
  unfolding swap_remove find_by_name
  swap_remove-perm n [] j e = cc
  swap_remove-perm n (x ∷ xs) j e = elim (Bool-cases (name x == n)) [
    | inl hit ↦
        let same : x ≡ j = ground arith in rw (hit, same) (Perm.cons j (replace_by_last-perm xs))
    | inr miss ↦ rw miss (
        Perm.trans (Perm.cons x (swap_remove-perm n xs j (ground arith)))
          (Perm.swap j x (swap_remove name n xs)))
  ]

  Option-set : IsSet (Option ℕ)
  Option-set = hlevel

  -- With distinct names the search finds the very job.
  pub find_by_name_self :
      (xs : List ℕ) (j : ℕ)
      → Nodup (map name xs)
      → Mem j xs
      → find_by_name name (name j) xs ≡ some j
  unfolding find_by_name
  find_by_name_self [] j d m = absurd (not-mem-nil m)
  find_by_name_self (x ∷ xs) j d m =
      Or.elim (Option-set _ _) (mem-cons.0 m)
        (λ (p : j ≡ x). ground (arith, eq_iff (name x) (name j)))
        (λ (m' : Mem j xs). rw (other m') (find_by_name_self xs j (Nodup-cons.0 d).1 m'))
    where
      other : Mem j xs → (name x == name j) ≡ false
      other m' = elim (Bool-cases (name x == name j)) [
        | inl same ↦ absurd (
            (Nodup-cons.0 d).0 (
              subst (λ n. Mem n (map name xs)) (sym ((eq_iff (name x) (name j)).0 same))
                (mem-map_of_mem name m')))
        | inr differs ↦ differs
      ]

  pub has_name_of_not-mem :
      (n : String) (xs : List ℕ) → ¬ Mem n (map name xs) → has_name name n xs ≡ false
  unfolding has_name
  has_name_of_not-mem n [] h = refl
  has_name_of_not-mem n (x ∷ xs) h = elim (Bool-cases (name x == n)) [
    | inl hit ↦ absurd (h (mem-cons.1 (Or.inl (sym ((eq_iff (name x) n).0 hit)))))
    | inr miss ↦ rw miss (has_name_of_not-mem n xs (λ m. h (mem-cons.1 (Or.inr m))))
  ]
