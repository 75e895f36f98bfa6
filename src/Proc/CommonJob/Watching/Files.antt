-- ===== src/Proc/CommonJob/Watching/Files.antt =====
-- One look at the files of a watch, and what a second look finds.
use mittnite.Prelude.{
  ℕ, String, ◌≡◌, refl, ◌∙◌, ap, Bool, false, List, [], ◌∷◌, arith, lookup, insert, lookup-insert,
  ◌==◌, nat_eq, string_eq, if◌then◌else◌, All, Bool-cases, inl, inr, eq_iff,
}
use mittnite.Proc.CommonJob.Watching.{
  Stat, present, missing, unreadable, FileSystem, Mtimes, or_zero, mtime_of, check_path,
  check_existing, is_missing, check_deleted, check_files,
}

module _ (fs : FileSystem) where
  -- The recorded time of a path that is there is the right one.
  abbrev pub Current : Mtimes → String → Type 0
  Current files p = (t : ℕ) → fs.stat p ≡ present t → mtime_of p files ≡ t

  abbrev pub NoneMissing : Mtimes → Type 0
  NoneMissing files = check_deleted fs files ≡ (files, false)

  pub mtime_of-insert :
      (p q : String) (t : ℕ) (files : Mtimes)
      → mtime_of q (insert p t files) ≡ (if p == q then t else mtime_of q files)
  mtime_of-insert p q t files = rw (lookup-insert p q t files) (ground arith)

  pub insert-Current :
      (p q : String) (t : ℕ) (files : Mtimes)
      → fs.stat p ≡ present t
      → Current files q
      → Current (insert p t files) q
  insert-Current p q t files here c t' there =
      mtime_of-insert p q t files ∙ ground (arith, eq_iff p q, c t' there)

  check_path-Current :
      (p q : String) (s : Stat) (files : Mtimes) (changed : Bool)
      → fs.stat p ≡ s
      → Current files q
      → Current (check_path fs p s (files, changed)).0 q
  unfolding check_path
  check_path-Current p q missing files changed e c = c
  check_path-Current p q unreadable files changed e c = c
  check_path-Current p q (present t) files changed e c = elim (Bool-cases (t == mtime_of p files)) [
    | inl same ↦ rw same c
    | inr other ↦ rw other (insert-Current p q t files e c)
  ]

  -- The path that was looked at is current afterwards.
  check_path_self :
      (p : String) (s : Stat) (files : Mtimes) (changed : Bool)
      → fs.stat p ≡ s
      → Current (check_path fs p s (files, changed)).0 p
  unfolding check_path
  check_path_self p missing files changed e t e' = cc
  check_path_self p unreadable files changed e t e' = cc
  check_path_self p (present t) files changed e t' e' = elim (Bool-cases (t == mtime_of p files)) [
    | inl same ↦ rw same (ground arith)
    | inr other ↦ rw other (mtime_of-insert p p t files ∙ ground (arith, eq_iff p p))
  ]

  check_existing-Current :
      (ps : List String) (q : String) (s : Mtimes × Bool)
      → Current s.0 q
      → Current (check_existing fs ps s).0 q
  unfolding check_existing
  check_existing-Current [] q s c = c
  check_existing-Current (p ∷ ps) q s c =
      check_existing-Current ps q (check_path fs p (fs.stat p) s)
        (check_path-Current p q (fs.stat p) s.0 s.1 refl c)

  check_existing_self :
      (ps : List String) (s : Mtimes × Bool) → All (Current (check_existing fs ps s).0) ps
  unfolding check_existing
  check_existing_self [] s = tt
  check_existing_self (p ∷ ps) s =
      let s' = check_path fs p (fs.stat p) s in
      (
        check_existing-Current ps p s' (check_path_self p (fs.stat p) s.0 s.1 refl),
        check_existing_self ps s',
      )

  -- Looking again at paths that are current finds no change.
  check_existing_settled :
      (ps : List String) (files : Mtimes) (changed : Bool)
      → All (Current files) ps
      → check_existing fs ps (files, changed) ≡ (files, changed)
  unfolding check_existing
  check_existing_settled [] files changed c = refl
  check_existing_settled (p ∷ ps) files changed c =
      ap (check_existing fs ps) (go (fs.stat p) refl) ∙ check_existing_settled ps files changed c.1
    where
      go : (s : Stat) → fs.stat p ≡ s → check_path fs p s (files, changed) ≡ (files, changed)
      go missing e = unfold check_path in refl
      go unreadable e = unfold check_path in refl
      go (present t) e = unfold check_path in ground (arith, c.0 t e)

  check_deleted-lookup :
      (q : String) (files : Mtimes)
      → is_missing fs (fs.stat q) ≡ false
      → lookup q (check_deleted fs files).0 ≡ lookup q files
  unfolding check_deleted lookup
  check_deleted-lookup q [] here = refl
  check_deleted-lookup q ((p, t) ∷ files) here =
      ground (arith, eq_iff p q, check_deleted-lookup q files here)

  check_deleted-NoneMissing : (files : Mtimes) → NoneMissing (check_deleted fs files).0
  unfolding check_deleted
  check_deleted-NoneMissing [] = refl
  check_deleted-NoneMissing ((p, t) ∷ files) = ground (arith, check_deleted-NoneMissing files)

  check_deleted-Current :
      (q : String) (files : Mtimes) → Current files q → Current (check_deleted fs files).0 q
  check_deleted-Current q files c t e = ap or_zero (check_deleted-lookup q files (rw e)) ∙ c t e

  abbrev pub Settled : List String → Mtimes → Type 0
  Settled paths files = All (Current files) paths × NoneMissing files

  All-check_deleted :
      (ps : List String) (files : Mtimes)
      → All (Current files) ps
      → All (Current (check_deleted fs files).0) ps
  All-check_deleted [] files c = tt
  All-check_deleted (p ∷ ps) files c =
      (check_deleted-Current p files c.0, All-check_deleted ps files c.1)

  pub check_files-Settled :
      (ps : List String) (files : Mtimes) → Settled ps (check_files fs ps files).0
  unfolding check_files
  check_files-Settled ps files = (
    All-check_deleted ps (check_existing fs ps (files, false)).0
        (check_existing_self ps (files, false)),
    check_deleted-NoneMissing (check_existing fs ps (files, false)).0,
  )

  pub check_files-Current :
      (ps : List String) (q : String) (files : Mtimes)
      → Current files q
      → Current (check_files fs ps files).0 q
  unfolding check_files
  check_files-Current ps q files c =
      check_deleted-Current q (check_existing fs ps (files, false)).0
        (check_existing-Current ps q (files, false) c)

  pub check_files_unchanged :
      (ps : List String) (files : Mtimes)
      → Settled ps files
      → check_files fs ps files ≡ (files, false)
  unfolding check_files
  check_files_unchanged ps files (c, d) = rw (check_existing_settled ps files false c, d)
