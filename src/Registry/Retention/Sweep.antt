-- ===== src/Registry/Retention/Sweep.antt =====
-- The part of PlanRegistryRetention that orders the deletions: the maps `parents` and `byDigest`,
-- and the closure `orderDeletion`.
pub mod Swept
pub mod Acyclic
pub mod Listing
pub mod Maps
use redlaunch.Base.{
  ℕ, zero, suc, Bool, true, false, ◌||◌, List, [], ◌∷◌, ◌++◌, Option, none, some, Text, text_eq,
  has, length, if◌then◌else◌, Result, ok, err, ◌>>=◌,
}
use redlaunch.Base.Assoc.{Table}
use redlaunch.Registry.Types.{Version, Error, graph_cycle, out_of_fuel}
use redlaunch.Registry.Retention.Graph.{references_of}

-- m[k] = v
abbrev pub update : {A : Type 0} → (Text → A) → Text → A → Text → A
update m k v j = if text_eq k j then v else m j

-- one round of the inner loop over `references[version.Digest]`
add_parents : Text → List Text → (Text → List Text) → Text → List Text
add_parents digest [] m = m
add_parents digest (c ∷ cs) m = add_parents digest cs (update m c (m c ++ digest ∷ []))

parents_loop : Table (List Text) → List Version → (Text → List Text) → Text → List Text
unfolding add_parents
parents_loop references [] m = m
parents_loop references (v ∷ vs) m =
    parents_loop references vs (add_parents v.digest (references_of references v.digest) m)

-- `parents`: from a digest to the versions that refer to it
unfoldable pub parents_of : Table (List Text) → List Version → Text → List Text
unfolding parents_loop
parents_of references versions = parents_loop references versions (λ _. [])

by_digest_loop : List Version → (Text → Option Version) → Text → Option Version
by_digest_loop [] m = m
by_digest_loop (v ∷ vs) m = by_digest_loop vs (update m v.digest (some v))

-- `byDigest`
unfoldable pub by_digest : List Version → Text → Option Version
unfolding by_digest_loop
by_digest versions = by_digest_loop versions (λ _. none)

-- what `orderDeletion` changes
pub record Sweep : Type 0 where
  pub ordered : List Text
  pub visiting : Text → Bool
  pub delete_order : List Version

abbrev pub appended : Option Version → List Version → List Version
appended none vs = vs
appended (some v) vs = vs ++ v ∷ []

-- `for _, parent := range parents[digest] { orderDeletion(parent) }`, for any step
unfoldable pub each_parent :
    (Text → Sweep → Result Error Sweep) → List Text → Sweep → Result Error Sweep
each_parent step [] s = ok s
each_parent step (p ∷ ps) s = step p s >>= λ s'. each_parent step ps s'

module _ (keep_set : List Text) (parents : Text → List Text) (find : Text → Option Version) where
  pub enter : Text → Sweep → Sweep
  enter digest s = record s { visiting = update s.visiting digest true }

  pub leave : Text → Sweep → Sweep
  leave digest s = record {
    ordered = digest ∷ s.ordered;
    visiting = update s.visiting digest false;
    delete_order = appended (find digest) s.delete_order;
  }

  -- `orderDeletion`, nested at most `fuel` calls deep
  unfoldable pub order_deletion : ℕ → Text → Sweep → Result Error Sweep
  unfolding enter leave each_parent
  order_deletion zero digest s = err out_of_fuel
  order_deletion (suc fuel) digest s =
      let below = each_parent (order_deletion fuel) (parents digest) (enter digest s) >>= λ s'.
      ok (leave digest s') in
      if has digest keep_set || has digest s.ordered
      then ok s
      else if s.visiting digest
      then err graph_cycle
      else below

abbrev pub start : Sweep
start = record { ordered = []; visiting = λ _. false; delete_order = [] }
