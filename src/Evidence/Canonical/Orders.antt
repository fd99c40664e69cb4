-- ===== src/Evidence/Canonical/Orders.antt =====
-- How the canonical text of an object depends on the order of its fields.
use allas_code_blueprint.Prelude.{String, ◌≡◌, refl, Bool, true, not, List, [], ◌∷◌, arith, ◌∙◌, ap}
use allas_code_blueprint.Prelude.Attempt.{Attempt}
use allas_code_blueprint.Prelude.Sets.{insert_sorted, sort}
use allas_code_blueprint.Graph.{Json, object, Fields, field}
use allas_code_blueprint.Evidence.Canonical.{
  Printing, key_before, object_text, canonical, canonical_fields,
}

-- What localeCompare promises: it is transitive.
abbrev pub IsTransitive : (String → String → Bool) → Type 0
IsTransitive before = (a b c : String) → before a b ≡ true → before b c ≡ true → before a c ≡ true

-- Exactly one of the two comes first. Texts that are canonically equivalent, though they differ, are
-- not told apart by localeCompare.
abbrev pub TellsApart : (String → String → Bool) → String → String → Type 0
TellsApart before a b = before a b ≡ not (before b a)

-- The same fields in another order, where neighbours change places only under keys that the order
-- tells apart.
pub data Reordered (before : String → String → Bool) : Fields → Fields → Type 0 where
  same : (fields : Fields) → Reordered before fields fields
  swap :
      (j k : String) (v w : Json) (fields : Fields)
      → TellsApart before j k
      → Reordered before (field j v (field k w fields)) (field k w (field j v fields))
  under :
      (k : String) (v : Json) {fields others : Fields}
      → Reordered before fields others
      → Reordered before (field k v fields) (field k v others)
  then_on :
      {fields others more : Fields}
      → Reordered before fields others
      → Reordered before others more
      → Reordered before fields more

module _ (p : Printing) (o : IsTransitive p.before) where
  -- Entries under keys that are told apart may be inserted in either order.
  insert_comm :
      (j k : String) (v w : Attempt String) (entries : List (String × Attempt String))
      → TellsApart p.before j k
      → insert_sorted (key_before p) (j, v) (insert_sorted (key_before p) (k, w) entries)
        ≡ insert_sorted (key_before p) (k, w) (insert_sorted (key_before p) (j, v) entries)
  unfolding insert_sorted
  insert_comm j k v w [] differ = ground arith
  insert_comm j k v w ((i, u) ∷ entries) differ =
      ground (arith, o i j k, o i k j, insert_comm j k v w entries)

  sort_same :
      {fields others : Fields}
      → Reordered p.before fields others
      → sort (key_before p) (canonical_fields p fields)
        ≡ sort (key_before p) (canonical_fields p others)
  unfolding sort canonical
  sort_same (same fields) = refl
  sort_same (swap j k v w fields differ) =
      insert_comm j k (canonical p v) (canonical p w)
        (sort (key_before p) (canonical_fields p fields)) differ
  sort_same (under k v r) = ap (insert_sorted (key_before p) (k, canonical p v)) (sort_same r)
  sort_same (then_on r s) = sort_same r ∙ sort_same s

  -- Where localeCompare is transitive, two objects with the same fields in another order, where only
  -- keys that localeCompare tells apart have changed places, have the same canonical text, and so the same hash, or the same error.
  pub canonical-Reordered :
      (fields others : Fields)
      → Reordered p.before fields others
      → canonical p (object fields) ≡ canonical p (object others)
  unfolding canonical object_text
  canonical-Reordered fields others r = rw (sort_same r)
