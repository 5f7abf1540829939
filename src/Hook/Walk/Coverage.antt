-- ===== src/Hook/Walk/Coverage.antt =====
-- What a walk has seen when it reports nothing.
use ray_on_vcf.Prelude.{
  ◌≡◌, refl, String, Bool, true, false, arith, inl, inr, Bool-cases, ◌==◌, if◌then◌else◌, ◌≢◌, sym,
  ◌∙◌,
}
use ray_on_vcf.Go.{Result, ok}
use ray_on_vcf.Go.Text.{ext}
use ray_on_vcf.Hook.Outcome.{Run, returns, returns_inv}
use ray_on_vcf.Go.Text.{join_path}
use ray_on_vcf.Hook.Walk.{
  Entry, Entries, Report, Answer, name_of, is_dir, visit, visit_go, walk, walk_entries,
}

module _ (header : String → Run (Result Bool)) where
  -- Every Go file has the notice, but those below a directory named testdata; and everything else
  -- could be read.
  mutual
    pub IsCovered : String → Entry → Type 0
    IsCovered path (Entry.file name) = (ext name == ".go") ≡ true → header path ≡ returns (ok true)
    IsCovered path (Entry.dir name es) = (name == "testdata") ≡ false → AreCovered path es
    IsCovered path (Entry.unreadable name e) = ⊥
    IsCovered path (Entry.lost name e) = ⊥

    pub AreCovered : String → Entries → Type 0
    AreCovered path Entries.end = Unit
    AreCovered path (Entries.entry e es) =
        IsCovered (join_path path (name_of e)) e × AreCovered path es

  abbrev pub is_failed : Answer → Bool
  is_failed (Answer.failed e) = true
  is_failed _ = false

  visit_go_sound :
      (path : String) (rep : Report) (a : Answer) (rep' : Report)
      → visit_go header path rep ≡ returns (a, rep')
      → rep'.missing ≡ false
      → (header path ≡ returns (ok true)) × (rep.missing ≡ false)
  unfolding visit_go
  visit_go_sound path rep a rep' h clean = ground arith

  -- Only directories are skipped.
  skips_dirs :
      (path : String) (e : Entry) (rep : Report) (a : Answer) (rep' : Report)
      → walk header path e rep ≡ returns (a, rep')
      → is_dir e ≡ false
      → a ≢ Answer.skip_dir
  unfolding walk visit visit_go
  skips_dirs path (Entry.file name) rep a rep' h d s = ground arith
  skips_dirs path (Entry.lost name e) rep a rep' h d s = ground arith
  skips_dirs path (Entry.dir name es) rep a rep' h d s = cc
  skips_dirs path (Entry.unreadable name e) rep a rep' h d s = cc

  -- The loop over the entries goes on after each entry.
  goes_on :
      (path : String) (e : Entry) (es : Entries) (rep : Report) (a : Answer) (rep' : Report)
      → walk_entries header path (Entries.entry e es) rep ≡ returns (a, rep')
      → is_failed a ≡ false
      → (b : Answer) × (rep1 : Report) × (walk header (join_path path (name_of e)) e rep
          ≡ returns (b, rep1))
        × (is_failed b ≡ false)
        × (walk_entries header path es rep1 ≡ returns (a, rep'))
  unfolding walk_entries
  goes_on path e es rep a rep' h fine =
      let ((b, rep1), x, y) = returns_inv (walk header (join_path path (name_of e)) e rep) _ h in
      let skips = skips_dirs (join_path path (name_of e)) e rep b rep1 x in
      elim (Bool-cases (is_dir e)) [
        | inl d ↦ (b, rep1, x, ground arith, ground arith)
        | inr d ↦ (b, rep1, x, ground (arith, skips d), ground (arith, skips d))
      ]

  walk-file :
      (path name : String) (rep : Report)
      → walk header path (Entry.file name) rep ≡ elim (ext name == ".go") [
        | true ↦ visit_go header path rep
        | false ↦ returns (Answer.next, rep)
      ]
  unfolding walk visit
  walk-file path name rep = ground arith

  walk-dir :
      (path name : String) (es : Entries) (rep : Report)
      → walk header path (Entry.dir name es) rep ≡ elim (name == "testdata") [
        | true ↦ returns (Answer.skip_dir, rep)
        | false ↦ walk_entries header path es rep
      ]
  unfolding walk visit
  walk-dir path name es rep = ground arith

  mutual
    unfolding walk visit IsCovered

    walk_sound :
        (path : String) (e : Entry) (rep : Report) (a : Answer) (rep' : Report)
        → walk header path e rep ≡ returns (a, rep')
        → is_failed a ≡ false
        → rep'.missing ≡ false
        → IsCovered path e × (rep.missing ≡ false)
    walk_sound path (Entry.file name) rep a rep' h fine clean =
        let e = walk-file path name rep in
        elim (Bool-cases (ext name == ".go")) [
          | inl go ↦
              let (x, y) = visit_go_sound path rep a rep' (rw go at (sym e ∙ h)) clean in
              (λ _. x, y)
          | inr other ↦ let h' = rw other at (sym e ∙ h) in (λ go. cc, cc)
        ]
    walk_sound path (Entry.unreadable name e) rep a rep' h fine clean = cc
    walk_sound path (Entry.lost name e) rep a rep' h fine clean = cc
    walk_sound path (Entry.dir name es) rep a rep' h fine clean =
        let e = walk-dir path name es rep in
        elim (Bool-cases (name == "testdata")) [
          | inl skipped ↦ let h' = rw skipped at (sym e ∙ h) in (λ seen. cc, cc)
          | inr seen ↦
              let (x, y) =
                walk_entries_sound path es rep a rep' (rw seen at (sym e ∙ h)) fine clean in
              (λ _. x, y)
        ]

    walk_entries_sound :
        (path : String) (es : Entries) (rep : Report) (a : Answer) (rep' : Report)
        → walk_entries header path es rep ≡ returns (a, rep')
        → is_failed a ≡ false
        → rep'.missing ≡ false
        → AreCovered path es × (rep.missing ≡ false)
    walk_entries_sound path Entries.end rep a rep' h fine clean = (tt, cc)
    walk_entries_sound path (Entries.entry e es) rep a rep' h fine clean =
        let (b, rep1, x, f, y) = goes_on path e es rep a rep' h fine in
        let (rest, m) = walk_entries_sound path es rep1 a rep' y fine clean in
        let (one, m') = walk_sound (join_path path (name_of e)) e rep b rep1 x f m in
        ((one, rest), m')

  -- How the walk of a covered entry ends.
  abbrev end_of : Entry → Answer
  end_of (Entry.dir name es) = if name == "testdata" then Answer.skip_dir else Answer.next
  end_of _ = Answer.next

  goes_through :
      (path : String) (e : Entry) (es : Entries) (rep : Report)
      → walk header (join_path path (name_of e)) e rep ≡ returns (end_of e, rep)
      → walk_entries header path (Entries.entry e es) rep ≡ walk_entries header path es rep
  unfolding walk_entries
  goes_through path (Entry.dir name es') es rep h = ground arith
  goes_through path (Entry.file name) es rep h = ground arith
  goes_through path (Entry.unreadable name x) es rep h = ground arith
  goes_through path (Entry.lost name x) es rep h = ground arith

  visit_go_covered :
      (path : String) (rep : Report)
      → header path ≡ returns (ok true)
      → visit_go header path rep ≡ returns (Answer.next, rep)
  unfolding visit_go
  visit_go_covered path rep h = ground arith

  walk-end :
      (path : String) (rep : Report)
      → walk_entries header path Entries.end rep ≡ returns (Answer.next, rep)
  unfolding walk_entries
  walk-end path rep = refl

  mutual
    unfolding IsCovered

    walk_complete :
        (path : String) (e : Entry) (rep : Report)
        → IsCovered path e
        → walk header path e rep ≡ returns (end_of e, rep)
    walk_complete path (Entry.file name) rep c = elim (Bool-cases (ext name == ".go")) [
      | inl go ↦ walk-file path name rep ∙ rw go (visit_go_covered path rep (c go))
      | inr other ↦ walk-file path name rep ∙ rw other refl
    ]
    walk_complete path (Entry.unreadable name e) rep c = absurd c
    walk_complete path (Entry.lost name e) rep c = absurd c
    walk_complete path (Entry.dir name es) rep c = elim (Bool-cases (name == "testdata")) [
      | inl skipped ↦ walk-dir path name es rep ∙ rw skipped refl
      | inr seen ↦ walk-dir path name es rep ∙ rw seen (walk_entries_complete path es rep (c seen))
    ]

    walk_entries_complete :
        (path : String) (es : Entries) (rep : Report)
        → AreCovered path es
        → walk_entries header path es rep ≡ returns (Answer.next, rep)
    walk_entries_complete path Entries.end rep c = walk-end path rep
    walk_entries_complete path (Entries.entry e es) rep (one, rest) =
        goes_through path e es rep (walk_complete (join_path path (name_of e)) e rep one)
        ∙ walk_entries_complete path es rep rest

  -- A walk that ends without an error and with nothing to report has covered all below its root,
  -- and such a walk has nothing to report.
  pub walk_covers :
      (path : String) (e : Entry) (rep : Report) (a : Answer) (rep' : Report)
      → walk header path e rep ≡ returns (a, rep')
      → is_failed a ≡ false
      → rep'.missing ≡ false
      → IsCovered path e × (rep.missing ≡ false)
  walk_covers path e rep a rep' h fine clean = walk_sound path e rep a rep' h fine clean

  pub covered_walk :
      (path : String) (e : Entry) (rep : Report)
      → IsCovered path e
      → (a : Answer) × (walk header path e rep ≡ returns (a, rep)) × (is_failed a ≡ false)
  covered_walk path e rep c = (end_of e, walk_complete path e rep c, ground arith)
