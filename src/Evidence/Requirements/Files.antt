-- ===== src/Evidence/Requirements/Files.antt =====
-- The files under an action: `hash`, `exists`, `walk` and `digest`. A file system is what stands at a
-- path, a file or a directory.
use allas_code_blueprint.Prelude.{
  String, ◌<>◌, Bool, ◌||◌, Option, none, some, List, [], ◌∷◌, ◌++◌, ℕ, if◌then◌else◌, is_some,
}
use allas_code_blueprint.Prelude.Attempt.{Attempt, returned, thrown, ◌>>=◌}
use allas_code_blueprint.Prelude.Sets.{sort_texts}
use allas_code_blueprint.Prelude.Text.{ends_with}
use allas_code_blueprint.Graph.{Json}
use allas_code_blueprint.Evidence.{Manifest, ExecutionInput}
use allas_code_blueprint.Evidence.Canonical.{Printing, canonical}
use allas_code_blueprint.Evidence.Requirements.Names.{lower, replace_all}

mutual
  pub data Entry : Type 0 where
    file : (content : String) → Entry
    directory : Entries → Entry

  pub data Entries : Type 0 where
    none_left : Entries
    entry : (name : String) → Entry → Entries → Entries

pub record Platform : Type 0 where
  pub printing : Printing
  pub sha256 : String → String
  pub at : String → Option Entry
  pub join_path : String → String → String
  pub relative : String → String → String
  pub parse_json : String → Attempt Json
  pub parse_yaml : String → Attempt Json
  pub parse_manifest : String → Attempt Manifest
  pub parse_date : String → Option ℕ

module _ (platform : Platform) where
  unfoldable pub hash : String → String
  hash v = "sha256:" <> platform.sha256 v

  abbrev pub exists_at : String → Bool
  exists_at p = is_some (platform.at p)

  -- `walk(p)` where `p` has this entry; `walk_entries` is its loop with `out`.
  unfoldable mutual
    pub walk : String → Entry → List String
    walk p (file content) = p ∷ []
    walk p (directory entries) = sort_texts (walk_entries p entries)

    pub walk_entries : String → Entries → List String
    walk_entries p none_left = []
    walk_entries p (entry name e entries) =
        walk (platform.join_path p name) e ++ walk_entries p entries

  unfoldable pub walk_path : String → List String
  unfolding walk
  walk_path p = elim (platform.at p) [ none ↦ [] | some e ↦ walk p e ]

  abbrev pub is_json : String → Bool
  is_json p = ends_with (lower p) ".json"

  abbrev pub is_document : String → Bool
  is_document p = is_json p || ends_with (lower p) ".yaml" || ends_with (lower p) ".yml"

  unfoldable pub content_digest : (p content : String) → Attempt String
  unfolding hash
  content_digest p content =
      if is_document p
      then (do
        doc ← if is_json p then platform.parse_json content else platform.parse_yaml content
        printed ← canonical platform.printing doc
        returned (hash printed))
      else returned (hash content)

  unfoldable pub digest : (root p : String) → Attempt ExecutionInput
  unfolding content_digest
  digest root p = elim (platform.at p) [
    | none ↦ thrown "ENOENT"
    | some (directory entries) ↦ thrown "EISDIR"
    | some (file content) ↦ do
      d ← content_digest p content
      returned (record { path = replace_all "\\" "/" (platform.relative root p); digest = d })
  ]
