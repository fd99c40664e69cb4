-- ===== src/Evidence/Canonical.antt =====
-- `canonical` of runtime/content-addressed-evidence.ts: the text of a JSON value whose objects have
-- their keys in order. JSON.stringify of a text, the printing of a finite number and localeCompare
-- (`before`) are parameters. `map` and `sort` commute here: the values are printed first, and the
-- first error in the order of the keys is the one that is thrown.
pub mod Orders
use allas_code_blueprint.Prelude.{
  String, ◌<>◌, ◌≡◌, Bool, true, false, List, [], ◌∷◌, ◌==◌, not, if◌then◌else◌, map,
}
use allas_code_blueprint.Prelude.Int.{ℤ}
use allas_code_blueprint.Prelude.Attempt.{Attempt, returned, thrown, ◌>>=◌}
use allas_code_blueprint.Prelude.Sets.{sort}
use allas_code_blueprint.Prelude.Text.{join}
use allas_code_blueprint.Graph.{
  Json, null, text, flag, number, non_finite, unsupported, array, object, Items, nil, item, Fields,
  end, field,
}

pub record Printing : Type 0 where
  pub stringify : String → String
  pub show_number : ℤ → String
  pub before : String → String → Bool

-- The texts of all entries, or the first error.
unfoldable pub all_of : List (Attempt String) → Attempt (List String)
all_of [] = returned []
all_of (x ∷ xs) = let rest = all_of xs in do first ← x; others ← rest; returned (first ∷ others)

module _ (p : Printing) where
  abbrev pub key_before : String × Attempt String → String × Attempt String → Bool
  key_before (k, v) (j, w) = p.before k j

  unfoldable pub entry_text : String × Attempt String → Attempt String
  entry_text (k, v) = do printed ← v; returned (p.stringify k <> ":" <> printed)

  unfoldable pub object_text : List (String × Attempt String) → Attempt String
  unfolding all_of entry_text
  object_text entries = do
    parts ← all_of (map entry_text (sort key_before entries))
    returned ("{" <> join "," parts <> "}")

  unfoldable pub array_text : List (Attempt String) → Attempt String
  unfolding all_of
  array_text entries = do parts ← all_of entries; returned ("[" <> join "," parts <> "]")

  unfoldable mutual
    unfolding object_text array_text

    pub canonical : Json → Attempt String
    canonical null = returned "null"
    canonical (text s) = returned (p.stringify s)
    canonical (flag b) = returned (if b then "true" else "false")
    canonical (number n) = returned (p.show_number n)
    canonical non_finite = thrown "non-finite canonical number"
    canonical (unsupported type) = thrown ("unsupported canonical value " <> type)
    canonical (array items) = array_text (canonical_items items)
    canonical (object fields) = object_text (canonical_fields fields)

    pub canonical_items : Items → List (Attempt String)
    canonical_items nil = []
    canonical_items (item x items) = canonical x ∷ canonical_items items

    pub canonical_fields : Fields → List (String × Attempt String)
    canonical_fields end = []
    canonical_fields (field k v fields) = (k, canonical v) ∷ canonical_fields fields
