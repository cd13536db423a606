-- ===== src/Tests/RetentionTests.antt =====
-- internal/application/registry_retention.go on a registry with two indexes.
use redlaunch.Base.{
  ℕ, ◌≡◌, ◌<◌, refl, ◌↔◌, not, inl, inr, Bool, true, false, List, [], ◌∷◌, Text, codes, ok, err,
  arith, has, text_eq, text_eq_iff, ◌⊎◌, if◌then◌else◌,
}
use redlaunch.Base.Number.{pos}
use redlaunch.Base.Assoc.{Table, lookup}
use redlaunch.Registry.Types.{
  Version, validate_registry_keep_count, registry_image_key, graph_cycle,
}
use redlaunch.Registry.Retention.Select.{
  digests, registry_version_protected, select_registry_versions,
}
use redlaunch.Registry.Retention.Select.Quota.{select_registry_versions-has, kept_by_policy}
use redlaunch.Registry.Retention.Graph.{references_of, children_of, retain_all}
use redlaunch.Registry.Retention.Graph.Closed.{retain_all_iff, Reach}
use redlaunch.Registry.Retention.Plan.{Plan, plan_registry_retention, check_graph}
use redlaunch.Registry.Retention.Plan.Listed.{Distinct}
use redlaunch.Registry.Retention.Plan.Complete.{plan_registry_retention_ends, Ended}
use redlaunch.Registry.Retention.Plan.Ordering.{Ranked}
use redlaunch.Registry.Retention.Graph.Ended.{Run}
use redlaunch.Registry.Retention.Plan.Safe.{
  plan_keeps_children, plan_deletes_purged, plan_deletes_parents_first,
}
use redlaunch.Registry.Retention.Plan.Protected.{plan_keeps_protected}

abbrev new_index : Version
new_index = record { digest = codes "i1"; tags = codes "latest" ∷ []; pushed_at = 9 }

abbrev new_child : Version
new_child = record { digest = codes "c1"; tags = []; pushed_at = 9 }

abbrev old_index : Version
old_index = record { digest = codes "i0"; tags = codes "v1" ∷ []; pushed_at = 5 }

abbrev old_child : Version
old_child = record { digest = codes "c0"; tags = []; pushed_at = 5 }

abbrev versions : List Version
versions = new_index ∷ new_child ∷ old_index ∷ old_child ∷ []

abbrev references : Table (List Text)
references =
    (codes "i1", codes "c1" ∷ [])
    ∷ (codes "c1", [])
    ∷ (codes "i0", codes "c0" ∷ [])
    ∷ (codes "c0", [])
    ∷ []

abbrev nothing : Text → Bool
nothing _ = false

abbrev app : Text
app = codes "app"

abbrev plan : Plan
plan = record {
  kept = new_index ∷ new_child ∷ [];
  purged = old_index ∷ old_child ∷ [];
  delete_order = old_index ∷ old_child ∷ [];
  purged_versions = 1;
}

planned : plan_registry_retention versions app (pos 1) nothing references ≡ ok plan
unfolding plan_registry_retention text_eq validate_registry_keep_count has
    registry_version_protected
planned = refl

-- a graph with a cycle of purged manifests is refused
cyclic :
    plan_registry_retention
      (new_index ∷ old_index ∷ [])
      app
      (pos 1)
      nothing
      ((codes "i1", []) ∷ (codes "i0", codes "i0" ∷ []) ∷ [])
    ≡ err graph_cycle
unfolding plan_registry_retention text_eq validate_registry_keep_count has
    registry_version_protected
cyclic = refl

-- a larger number for a child than for its index
abbrev rank : Text → ℕ
rank d = if text_eq d (codes "c1") then 1 else if text_eq d (codes "c0") then 1 else 0

only_child : (d c : Text) → has c (d ∷ []) ≡ true → d ≡ c
unfolding has
only_child d c h = ground (arith, text_eq_iff d c)

no_child : (c : Text) → has c [] ≡ true → ⊥
unfolding has
no_child c h = cc

ranked_at :
    (p c : Text)
    → (codes "i1" ≡ p) ⊎ (codes "c1" ≡ p) ⊎ (codes "i0" ≡ p) ⊎ (codes "c0" ≡ p)
    → has c (references_of references p) ≡ true
    → rank p < rank c
unfolding text_eq has references_of lookup
ranked_at p c (inl e) k = rw (← e) (rw (← only_child (codes "c1") c (rw (← e) at k)) (omega arith))
ranked_at p c (inr (inl e)) k = absurd (no_child c (rw (← e) at k))
ranked_at p c (inr (inr (inl e))) k =
    rw (← e) (rw (← only_child (codes "c0") c (rw (← e) at k)) (omega arith))
ranked_at p c (inr (inr (inr e))) k = absurd (no_child c (rw (← e) at k))

ranked : Ranked references versions rank
unfolding has
ranked p c h k =
    ranked_at p c
      (ground (
        arith,
        text_eq_iff (codes "i1") p,
        text_eq_iff (codes "c1") p,
        text_eq_iff (codes "i0") p,
        text_eq_iff (codes "c0") p,
      ))
      k

graph_complete : check_graph references versions ≡ ok tt
unfolding check_graph references_of lookup text_eq
graph_complete = refl

plan_registry_retention_ends_example :
    ((keep_set : List Text)
      → Run references keep_set
          (record { visited = []; keep_set = keep_set })
          (retain_all references keep_set))
    × Ended versions app
        (pos 1)
        nothing
        references
        (plan_registry_retention versions app (pos 1) nothing references)
plan_registry_retention_ends_example =
    plan_registry_retention_ends versions app (pos 1) nothing references

plan_keeps_children_example :
    (has (codes "c1") (digests plan.delete_order) ≡ false)
    × (has (codes "c1") (digests versions) ≡ true → has (codes "c1") (digests plan.kept) ≡ true)
unfolding has text_eq references_of lookup
plan_keeps_children_example =
    plan_keeps_children versions app (pos 1) nothing references plan planned (codes "i1")
      (codes "c1") refl refl

plan_deletes_purged_example :
    ((d : Text) → has d (digests plan.delete_order) ≡ has d (digests plan.purged))
    × Distinct (digests plan.delete_order)
    × ((d : Text)
        → has d (digests versions) ≡ true
        → has d (digests plan.purged) ≡ not (has d (digests plan.kept)))
plan_deletes_purged_example =
    plan_deletes_purged versions app (pos 1) nothing references plan planned

plan_deletes_parents_first_example : has (codes "i0") (digests (old_index ∷ [])) ≡ true
unfolding has text_eq references_of lookup
plan_deletes_parents_first_example =
    plan_deletes_parents_first versions app (pos 1) nothing references plan planned (old_index ∷ [])
      [] old_child (codes "i0") refl refl refl

-- the old index is deployed, so its tag is protected
abbrev deployed : Text → Bool
deployed k = text_eq k (registry_image_key app (codes "v1"))

abbrev deployed_plan : Plan
deployed_plan = record { kept = versions; purged = []; delete_order = []; purged_versions = 0 }

deployed_planned :
    plan_registry_retention versions app (pos 1) deployed references ≡ ok deployed_plan
unfolding plan_registry_retention text_eq validate_registry_keep_count has
    registry_version_protected registry_image_key
deployed_planned = refl

plan_keeps_protected_example : has (codes "i0") (digests deployed_plan.kept) ≡ true
unfolding has text_eq registry_version_protected registry_image_key children_of
plan_keeps_protected_example =
    plan_keeps_protected app (pos 1) deployed references (new_index ∷ new_child ∷ [])
      (old_child ∷ []) old_index deployed_plan deployed_planned refl refl refl refl

select_registry_versions-has_example :
    has (codes "i0") (codes "i1" ∷ [])
    ≡ kept_by_policy app
        (pos 1)
        nothing
        (codes "c1" ∷ codes "c0" ∷ [])
        (new_index ∷ new_child ∷ [])
        old_index
unfolding has text_eq select_registry_versions registry_version_protected
    validate_registry_keep_count
select_registry_versions-has_example =
    select_registry_versions-has app (pos 1) nothing (codes "c1" ∷ codes "c0" ∷ [])
      (new_index ∷ new_child ∷ []) (old_child ∷ []) old_index (codes "i1" ∷ []) refl refl refl refl

retain_all_iff_example :
    (has (codes "c1") (retain_all references (codes "i1" ∷ [])).keep_set ≡ true)
    ↔ Reach references (codes "i1" ∷ []) (codes "c1")
retain_all_iff_example = retain_all_iff references (codes "i1" ∷ []) (codes "c1")
