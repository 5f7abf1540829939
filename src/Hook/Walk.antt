-- ===== src/Hook/Walk.antt =====
-- `filepath.Walk` with the function that `main` of ci/pre-commit-hook/copyrights.go passes to it.
pub mod Coverage
use Prim.Native.String.{◌++◌}
use ray_on_vcf.Prelude.{
  String, Bool, true, false, Option, none, some, List, [], ◌∷◌, ◌++◌ as ◌+++◌, ◌==◌, if◌then◌else◌,
}
use ray_on_vcf.Go.{Error, message, Result, ok, err}
use ray_on_vcf.Go.Text.{ext, join_path}
use ray_on_vcf.Hook.Outcome.{Run, returns, fatal, panics, ◌>>=◌}

-- What lies under a root, the entries of a directory in the order of their names. A directory may
-- be unreadable, and an entry may be lost before it is looked at.
mutual
  pub data Entry : Type 0 where
    file : String → Entry
    dir : String → Entries → Entry
    unreadable : String → Error → Entry
    lost : String → Error → Entry

  pub data Entries : Type 0 where
    end : Entries
    entry : Entry → Entries → Entries

abbrev pub name_of : Entry → String
name_of (Entry.file name) = name
name_of (Entry.dir name es) = name
name_of (Entry.unreadable name e) = name
name_of (Entry.lost name e) = name

abbrev pub is_dir : Entry → Bool
is_dir (Entry.dir name es) = true
is_dir (Entry.unreadable name e) = true
is_dir _ = false

-- The variable `missing`, and the paths that were printed.
pub record Report : Type 0 where
  pub missing : Bool
  pub printed : List String

-- The `error` of the function that is passed: nil, `filepath.SkipDir`, or another one.
pub data Answer : Type 0 where
  next skip_dir : Answer
  failed : Error → Answer

module _ (header : String → Run (Result Bool)) where
  -- A Go file.
  unfoldable pub visit_go : String → Report → Run (Answer × Report)
  visit_go path rep = header path >>= λ r. elim r [
    | err e ↦ fatal ("could not check " ++ path ++ ": " ++ message e)
    | ok true ↦ returns (next, rep)
    | ok false ↦ returns (next, record { missing = true; printed = rep.printed +++ path ∷ [] })
  ]

  -- The function that is passed.
  unfoldable pub visit : String → String → Bool → Option Error → Report → Run (Answer × Report)
  unfolding visit_go
  visit path name is_dir (some e) rep = returns (failed e, rep)
  visit path name true none rep = returns ((if name == "testdata" then skip_dir else next), rep)
  visit path name false none rep = elim (ext name == ".go") [
    | false ↦ returns (next, rep)
    | true ↦ visit_go path rep
  ]

  -- `walk`, below a path.
  unfoldable mutual
    unfolding visit

    pub walk : String → Entry → Report → Run (Answer × Report)
    walk path (Entry.file name) rep = visit path name false none rep
    walk path (Entry.unreadable name e) rep = visit path name true (some e) rep
    walk path (Entry.lost name e) rep = visit path name false (some e) rep
    walk path (Entry.dir name es) rep = visit path name true none rep >>= λ r. elim r.0 [
      | next ↦ walk_entries path es r.1
      | skip_dir ↦ returns (skip_dir, r.1)
      | failed e ↦ returns (failed e, r.1)
    ]

    pub walk_entries : String → Entries → Report → Run (Answer × Report)
    walk_entries path Entries.end rep = returns (next, rep)
    walk_entries path (Entries.entry e es) rep = walk (join_path path (name_of e)) e rep >>= λ r.
        elim r.0 [
          | next ↦ walk_entries path es r.1
          | skip_dir ↦ if is_dir e then walk_entries path es r.1 else returns (skip_dir, r.1)
          | failed x ↦ returns (failed x, r.1)
        ]
