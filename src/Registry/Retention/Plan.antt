-- ===== src/Registry/Retention/Plan.antt =====
-- PlanRegistryRetention and PreviewRegistryRetention.
pub mod Ordering
pub mod Complete
pub mod Listed
pub mod Safe
pub mod Protected
use redlaunch.Base.{
  ℕ, zero, suc, ◌+◌, Bool, true, false, ◌&&◌, List, [], ◌∷◌, ◌++◌, Option, none, some, Text, has,
  length, if◌then◌else◌, Result, ok, err, ◌>>=◌, select, not,
}
use redlaunch.Base.Number.{ℤ}
use redlaunch.Base.Assoc.{Table, lookup}
use redlaunch.Registry.Types.{Version, Error, graph_incomplete}
use redlaunch.Registry.Retention.Select.{select_registry_versions, digests}
use redlaunch.Registry.Retention.Graph.{references_of, retain_all, children_of}
use redlaunch.Registry.Retention.Sweep.{
  Sweep, start, parents_of, by_digest, order_deletion, each_parent,
}

-- RegistryRetentionPlan
pub record Plan : Type 0 where
  pub kept : List Version
  pub purged : List Version
  pub delete_order : List Version
  pub purged_versions : ℕ

-- the inner loop of the completeness check
check_references : Table (List Text) → List Text → Result Error (Unit {0})
unfolding lookup
check_references references [] = ok tt
check_references references (d ∷ ds) = elim (lookup d references) [
  | none ↦ err graph_incomplete
  | some _ ↦ check_references references ds
]

-- the outer loop of the completeness check
unfoldable pub check_graph : Table (List Text) → List Version → Result Error (Unit {0})
unfolding check_references references_of
check_graph references [] = ok tt
check_graph references (v ∷ vs) =
    check_references references (references_of references v.digest) >>= λ _.
    check_graph references vs

abbrev pub is_empty : List Text → Bool
is_empty [] = true
is_empty (t ∷ ts) = false

-- an untagged child manifest of an index
abbrev pub is_untagged_child : List Text → Version → Bool
is_untagged_child children version = has version.digest children && is_empty version.tags

-- the keys of `excluded`
unfoldable pub excluded_of : List Text → List Version → List Text
excluded_of children [] = []
excluded_of children (v ∷ vs) =
    if is_untagged_child children v
    then v.digest ∷ excluded_of children vs
    else excluded_of children vs

-- the last loop: `Kept`, `Purged` and `PurgedVersions`
unfoldable pub classify : List Text → List Text → List Version → Plan → Plan
classify keep_set children [] plan = plan
classify keep_set children (v ∷ vs) plan = classify keep_set children vs (
    if has v.digest keep_set then record plan { kept = plan.kept ++ v ∷ [] } else record plan {
      purged = plan.purged ++ v ∷ [];
      purged_versions =
          if is_untagged_child children v then plan.purged_versions else plan.purged_versions + 1;
    })

-- `for _, version := range versions { orderDeletion(version.Digest) }`; a call nests below another
-- only at a child that is not being visited, so one call more than there are children is enough
unfoldable pub order_all : Table (List Text) → List Version → List Text → Result Error Sweep
unfolding parents_of by_digest order_deletion each_parent children_of
order_all references versions keep_set =
    each_parent
      (order_deletion keep_set (parents_of references versions) (by_digest versions)
        (suc (length (children_of references))))
      (digests versions) start

-- PlanRegistryRetention
unfoldable pub plan_registry_retention :
    List Version → Text → ℤ → (Text → Bool) → Table (List Text) → Result Error Plan
unfolding check_graph excluded_of select_registry_versions retain_all order_all classify children_of
plan_registry_retention versions repository keep protected references =
    let children = children_of references in
    check_graph references versions >>= λ _.
    select_registry_versions versions repository keep protected (excluded_of children versions)
    >>= λ selected.
        let keep_set = (retain_all references selected).keep_set in
        order_all references versions keep_set >>= λ sweep. ok (
          classify keep_set children versions (record {
            kept = [];
            purged = [];
            delete_order = sweep.delete_order;
            purged_versions = 0;
          }))
