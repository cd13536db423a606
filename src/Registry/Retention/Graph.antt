-- ===== src/Registry/Retention/Graph.antt =====
-- The part of PlanRegistryRetention that keeps the manifests below a kept index: the closure
-- `retainChildren`. `references` maps the digest of a manifest to those of its children.
pub mod Closed
pub mod Ended
use redlaunch.Base.{
  ℕ, zero, suc, ◌+◌, Bool, true, false, not, List, [], ◌∷◌, ◌++◌, Option, none, some, Text, has,
  length, if◌then◌else◌,
}
use redlaunch.Base.Assoc.{Table, lookup}
use redlaunch.Registry.Types.{Version}

abbrev or_empty : Option (List Text) → List Text
or_empty none = []
or_empty (some refs) = refs

-- `references[digest]`
unfoldable pub references_of : Table (List Text) → Text → List Text
unfolding lookup
references_of references digest = or_empty (lookup digest references)

-- the keys of `children`: `for _, refs := range references { for _, digest := range refs { … } }`
unfoldable pub children_of : Table (List Text) → List Text
children_of [] = []
children_of ((k, refs) ∷ references) = refs ++ children_of references

-- what `retainChildren` changes
pub record Walk : Type 0 where
  pub visited : List Text
  pub keep_set : List Text

-- `for _, child := range references[digest] { retainChildren(child) }`, for any step
unfoldable pub each : (Text → Walk → Walk) → List Text → Walk → Walk
each step [] w = w
each step (d ∷ ds) w = each step ds (step d w)

module _ (references : Table (List Text)) where
  -- `retainChildren`, nested at most `fuel` calls deep; at the bound the walk is left as it is, which
  -- the relation Run of the module Ended does not allow
  pub retain_children : ℕ → Text → Walk → Walk
  unfolding references_of each
  retain_children zero digest w = w
  retain_children (suc fuel) digest w =
      let below =
        each (retain_children fuel) (references_of references digest)
          (record { visited = digest ∷ w.visited; keep_set = digest ∷ w.keep_set }) in
      if has digest w.visited then w else below

  -- `for digest := range keepSet { retainChildren(digest) }`; a call nests below another only at a
  -- key of `references` that was not visited, so one call more than there are keys is enough
  unfoldable pub retain_all : List Text → Walk
  unfolding retain_children
  retain_all keep_set =
      each (retain_children (suc (length references))) keep_set
        (record { visited = []; keep_set = keep_set })
