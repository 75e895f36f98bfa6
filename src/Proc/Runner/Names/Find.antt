-- ===== src/Proc/Runner/Names/Find.antt =====
-- The search for a name, under the edits of the list.
use mittnite.Prelude.{
  ℕ, ◌≡◌, refl, sym, ◌∙◌, ap, subst, String, true, false, List, [], ◌∷◌, ◌++◌, map, arith, ◌==◌,
  string_eq, eq_iff, Bool-cases, Option-cases, inl, inr, Option, none, some, if◌then◌else◌,
}
use mathlib.Core.Logic.Or
use mathlib.Core.List.{Perm, Mem, Nodup, Nodup-cons, mem-cons, mem-map_of_mem}
use mathlib.Core.List.Perm
use mittnite.Proc.Runner.{has_name, find_by_name, swap_remove}
use mittnite.Proc.Runner.Names.Lists.{find_by_name_self, swap_remove-perm}

-- The first that is there.
abbrev pub first_of : Option ℕ → Option ℕ → Option ℕ
first_of none o = o
first_of (some j) o = some j

module _ (name : ℕ → String) where
  pub find-concat :
      (n : String) (xs : List ℕ) (j : ℕ)
      → find_by_name name n (xs ++ j ∷ [])
        ≡ first_of (find_by_name name n xs) (if name j == n then some j else none)
  unfolding find_by_name
  find-concat n [] j = refl
  find-concat n (x ∷ xs) j = elim (Bool-cases (name x == n)) [
    | inl hit ↦ rw hit refl
    | inr miss ↦ rw miss (find-concat n xs j)
  ]

  pub found_of_has_name :
      (n : String) (xs : List ℕ)
      → has_name name n xs ≡ true
      → (k : ℕ) × (find_by_name name n xs ≡ some k)
  unfolding find_by_name has_name
  found_of_has_name n [] e = ground arith
  found_of_has_name n (x ∷ xs) e = elim (Bool-cases (name x == n)) [
    | inl hit ↦ rw hit (x, refl)
    | inr miss ↦ rw miss (found_of_has_name n xs (rw miss at e))
  ]

  pub found-Mem :
      (n : String) (xs : List ℕ) (k : ℕ) → find_by_name name n xs ≡ some k → Mem k xs × (name k ≡ n)
  unfolding find_by_name
  found-Mem n [] k e = ground arith
  found-Mem n (x ∷ xs) k e = elim (Bool-cases (name x == n)) [
    | inl hit ↦
        let same : x ≡ k = ground arith in
        (mem-cons.1 (Or.inl (sym same)), ap name (sym same) ∙ (eq_iff (name x) n).0 hit)
    | inr miss ↦
        let (there, named) = found-Mem n xs k (rw miss at e) in (mem-cons.1 (Or.inr there), named)
  ]

  pub not_found_of_not-mem :
      (n : String) (xs : List ℕ) → ¬ Mem n (map name xs) → find_by_name name n xs ≡ none
  not_found_of_not-mem n xs h = elim (Option-cases (find_by_name name n xs)) [
    | inl nowhere ↦ nowhere
    | inr (k, e) ↦
        let (there, named) = found-Mem n xs k e in
        absurd (h (subst (λ m. Mem m (map name xs)) named (mem-map_of_mem name there)))
  ]

  found-perm :
      (n : String) (xs ys : List ℕ) (k : ℕ)
      → Nodup (map name xs)
      → Perm xs ys
      → find_by_name name n xs ≡ some k
      → find_by_name name n ys ≡ some k
  found-perm n xs ys k d p e =
      let (there, named) = found-Mem n xs k e in
      subst (λ m. find_by_name name m ys ≡ some k) named
        (find_by_name_self name ys k (Perm.nodup (Perm.map name p) d) ((Perm.mem_iff p).0 there))

  -- With distinct names the order of the list does not matter.
  find-perm :
      (n : String) (xs ys : List ℕ)
      → Nodup (map name xs)
      → Perm xs ys
      → find_by_name name n xs ≡ find_by_name name n ys
  find-perm n xs ys d p = elim (Option-cases (find_by_name name n xs)) [
    | inr (k, e) ↦ e ∙ sym (found-perm n xs ys k d p e)
    | inl nowhere ↦ elim (Option-cases (find_by_name name n ys)) [
      | inl nowhere_else ↦ nowhere ∙ sym nowhere_else
      | inr (k, e) ↦
          let back = found-perm n ys xs k (Perm.nodup (Perm.map name p) d) (Perm.symm p) e in
          ground (arith, nowhere, back)
    ]
  ]

  swap_remove-missing :
      (n : String) (xs : List ℕ) → find_by_name name n xs ≡ none → swap_remove name n xs ≡ xs
  unfolding swap_remove find_by_name
  swap_remove-missing n [] e = refl
  swap_remove-missing n (x ∷ xs) e = elim (Bool-cases (name x == n)) [
    | inl hit ↦ ground (arith, hit)
    | inr miss ↦ rw miss (ap (λ ys. x ∷ ys) (swap_remove-missing n xs (rw miss at e)))
  ]

  find-removed :
      (m n : String) (xs : List ℕ) (k : ℕ)
      → Nodup (map name xs)
      → find_by_name name m xs ≡ some k
      → find_by_name name n (swap_remove name m xs)
        ≡ (if m == n then none else find_by_name name n xs)
  find-removed m n xs k d e = elim (Bool-cases (m == n)) [
    | inl same ↦ rw same (
        subst (λ i. find_by_name name i rest ≡ none) (named ∙ (eq_iff m n).0 same)
          (not_found_of_not-mem (name k) rest apart.0))
    | inr other ↦ rw (other, find-perm n xs (k ∷ rest) d p) (sym (skipped other))
  ]
    where
      rest : List ℕ
      rest = swap_remove name m xs

      p : Perm xs (k ∷ rest)
      p = swap_remove-perm name m xs k e

      apart : (¬ Mem (name k) (map name rest)) × Nodup (map name rest)
      apart = Nodup-cons.0 (Perm.nodup (Perm.map name p) d)

      named : name k ≡ m
      named = (found-Mem m xs k e).1

      skipped : (m == n) ≡ false → find_by_name name n (k ∷ rest) ≡ find_by_name name n rest
      skipped other = unfold find_by_name in rw (named, other) refl

  -- Removing a name from a list of distinct names.
  pub find-swap_remove :
      (m n : String) (xs : List ℕ)
      → Nodup (map name xs)
      → find_by_name name n (swap_remove name m xs)
        ≡ (if m == n then none else find_by_name name n xs)
  find-swap_remove m n xs d = elim (Option-cases (find_by_name name m xs)) [
    | inr (k, e) ↦ find-removed m n xs k d e
    | inl nowhere ↦ rw (swap_remove-missing m xs nowhere) (elim (Bool-cases (m == n)) [
      | inl same ↦
          rw same (subst (λ i. find_by_name name i xs ≡ none) ((eq_iff m n).0 same) nowhere)
      | inr other ↦ rw other refl
    ])
  ]

  -- The names stay distinct.
  pub swap_remove-Nodup :
      (m : String) (xs : List ℕ) → Nodup (map name xs) → Nodup (map name (swap_remove name m xs))
  swap_remove-Nodup m xs d = elim (Option-cases (find_by_name name m xs)) [
    | inr (k, e) ↦ (Nodup-cons.0 (Perm.nodup (Perm.map name (swap_remove-perm name m xs k e)) d)).1
    | inl nowhere ↦ rw (swap_remove-missing m xs nowhere) d
  ]
