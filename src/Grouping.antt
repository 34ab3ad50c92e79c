-- ===== src/Grouping.antt =====
-- A JavaScript `Map` with texts for keys, in the order of insertion, and the loop by which the
-- usage code fills one: `existing = map.get(key)`, then the entry is extended or a new one is set.
pub mod Laws
pub mod Counts
use lite_nova.Prelude.{String, List, [], ◌∷◌, str_eq, if◌then◌else◌}

module _ {R V : Type 0} (key : R → String) (first : R → V) (more : R → V → V) where
  -- one round of the loop
  unfoldable pub tally : R → List (String × V) → List (String × V)
  tally r [] = (key r, first r) ∷ []
  tally r ((k, v) ∷ entries) =
      if str_eq k (key r) then (k, more r v) ∷ entries else (k, v) ∷ tally r entries

  unfoldable pub group : List R → List (String × V) → List (String × V)
  unfolding tally
  group [] entries = entries
  group (r ∷ rs) entries = group rs (tally r entries)
