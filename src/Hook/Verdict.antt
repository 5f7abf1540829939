-- ===== src/Hook/Verdict.antt =====
-- What the exit status of the commit hook says.
use ray_on_vcf.Prelude.{◌≡◌, ◌↔◌, refl, String, Bool, false, List, [], ◌∷◌, All, inl, inr, arith}
use ray_on_vcf.Go.{ok, Result-cases}
use ray_on_vcf.Hook.{
  System, Args, roots_of, given_or, boilerplate_file_path, get_copyright_header, check_root,
  check_roots, check_all, status_of, exit_status,
}
use ray_on_vcf.Hook.Outcome.{Run, returns, fatal, panics, returns_inv}
use ray_on_vcf.Hook.Comments.{has_copyright_header}
use ray_on_vcf.Hook.Walk.{Report, walk}
use ray_on_vcf.Hook.Walk.Coverage.{IsCovered, walk_covers, covered_walk}

module _ (sys : System) where
  -- All that is below a root is covered.
  abbrev pub RootIsCovered : (String → Bool) → String → Type 0
  RootIsCovered copyright root =
      IsCovered (has_copyright_header sys.files copyright) root (sys.entry_at root)

  -- The notice that is looked for, and its expression.
  abbrev pub IsNotice : Args → (String → Bool) → Type 0
  IsNotice args copyright =
      (text : String) × (get_copyright_header sys.files boilerplate_file_path ≡ returns text)
      × (sys.compile (given_or text args.notice) ≡ ok copyright)

  check_root_sound :
      (copyright : String → Bool) (root : String) (rep rep' : Report)
      → check_root sys copyright root rep ≡ returns rep'
      → rep'.missing ≡ false
      → RootIsCovered copyright root × (rep.missing ≡ false)
  unfolding check_root
  check_root_sound copyright root rep rep' h clean =
      let header = has_copyright_header sys.files copyright in
      let ((a, rep1), x, y) = returns_inv (walk header root (sys.entry_at root) rep) _ h in
      walk_covers header root (sys.entry_at root) rep a rep1 x (ground arith) (ground arith)

  check_roots_sound :
      (copyright : String → Bool) (roots : List String) (rep rep' : Report)
      → check_roots sys copyright roots rep ≡ returns rep'
      → rep'.missing ≡ false
      → All (RootIsCovered copyright) roots × (rep.missing ≡ false)
  unfolding check_roots
  check_roots_sound copyright [] rep rep' h clean = (tt, cc)
  check_roots_sound copyright (root ∷ roots) rep rep' h clean =
      let (rep1, x, y) = returns_inv (check_root sys copyright root rep) _ h in
      let (rest, m) = check_roots_sound copyright roots rep1 rep' y clean in
      let (one, m') = check_root_sound copyright root rep rep1 x m in ((one, rest), m')

  check_roots_complete :
      (copyright : String → Bool) (roots : List String) (rep : Report)
      → All (RootIsCovered copyright) roots
      → check_roots sys copyright roots rep ≡ returns rep
  unfolding check_roots check_root
  check_roots_complete copyright [] rep c = refl
  check_roots_complete copyright (root ∷ roots) rep (one, rest) =
      let header = has_copyright_header sys.files copyright in
      let (a, x, f) = covered_walk header root (sys.entry_at root) rep one in
      ground (arith, check_roots_complete copyright roots rep rest)

  -- A run with status 0 returns, and has nothing to report.
  zero_inv :
      (run : Run Report)
      → status_of run ≡ 0
      → (rep : Report) × (run ≡ returns rep) × (rep.missing ≡ false)
  zero_inv (returns rep) h = (rep, refl, ground arith)
  zero_inv (fatal m) h = absurd (omega arith)
  zero_inv panics h = absurd (omega arith)

  check_all_sound :
      (args : Args) (rep : Report)
      → check_all sys args ≡ returns rep
      → rep.missing ≡ false
      → (copyright : String → Bool) × IsNotice args copyright
        × All (RootIsCovered copyright) (roots_of args.roots)
  unfolding check_all
  check_all_sound args rep h clean =
      let (text, t, x) = returns_inv (get_copyright_header sys.files boilerplate_file_path) _ h in
      elim (Result-cases (sys.compile (given_or text args.notice))) [
        | inl (copyright, k) ↦
            let (c, _) =
              check_roots_sound copyright (roots_of args.roots)
                (record { missing = false; printed = [] }) rep (ground arith) clean in
            (copyright, (text, t, k), c)
        | inr (e, k) ↦ absurd (ground arith)
      ]

  -- The hook exits with status 0 exactly if there is a notice to look for, which is an expression,
  -- and below every root everything could be read and every Go file, but for those below a
  -- directory named testdata, has a comment that matches.
  pub exit_status-zero_iff :
      (args : Args)
      → (exit_status sys args ≡ 0) ↔ (
          (copyright : String → Bool) × IsNotice args copyright
          × All (RootIsCovered copyright) (roots_of args.roots))
  unfolding exit_status check_all
  exit_status-zero_iff args = (
    λ h. let (rep, x, clean) = zero_inv (check_all sys args) h in check_all_sound args rep x clean,
    λ (copyright, (text, t, k), c). ground (
      arith,
      check_roots_complete copyright (roots_of args.roots)
          (record { missing = false; printed = [] }) c,
    ),
  )
