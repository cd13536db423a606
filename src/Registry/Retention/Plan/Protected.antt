-- ===== src/Registry/Retention/Plan/Protected.antt =====
-- The protected versions in a plan.
use redlaunch.Base.{◌≡◌, refl, Bool, true, false, List, [], ◌∷◌, ◌++◌, Text, has, arith, ok}
use redlaunch.Base.Number.{ℤ}
use redlaunch.Base.Assoc.{Table}
use redlaunch.Registry.Types.{Version}
use redlaunch.Registry.Retention.Select.{digests, digests-listed, is_free}
use redlaunch.Registry.Retention.Select.Quota.{select_registry_versions-free}
use redlaunch.Registry.Retention.Graph.{children_of}
use redlaunch.Registry.Retention.Plan.{
  Plan, plan_registry_retention, excluded_of, is_untagged_child,
}
use redlaunch.Registry.Retention.Plan.Complete.{plan_made}
use redlaunch.Registry.Retention.Plan.Safe.{selected-kept}

excluded-old :
    (children : List Text) (vs : List Version) (d : Text)
    → has d (digests vs) ≡ false
    → has d (excluded_of children vs) ≡ false
unfolding excluded_of has
excluded-old children [] d h = refl
excluded-old children (v ∷ vs) d h = ground (arith, excluded-old children vs d)

excluded-at :
    (children : List Text) (newer older : List Version) (v : Version)
    → has v.digest (digests newer) ≡ false
    → has v.digest (digests older) ≡ false
    → is_untagged_child children v ≡ false
    → has v.digest (excluded_of children (newer ++ v ∷ older)) ≡ false
unfolding excluded_of has
excluded-at children [] older v hn ho u = ground (arith, excluded-old children older v.digest)
excluded-at children (w ∷ newer) older v hn ho u =
    ground (arith, excluded-at children newer older v)

-- A plan keeps a version that is deployed or protected, or whose push time is unknown, unless it is
-- an untagged child manifest, which goes with its index. The version's digest is listed once.
pub plan_keeps_protected :
    (repository : Text) (keep : ℤ) (protected : Text → Bool) (references : Table (List Text))
    (newer older : List Version) (v : Version) (plan : Plan)
    → plan_registry_retention (newer ++ v ∷ older) repository keep protected references ≡ ok plan
    → has v.digest (digests newer) ≡ false
    → has v.digest (digests older) ≡ false
    → is_untagged_child (children_of references) v ≡ false
    → is_free repository protected v ≡ true
    → has v.digest (digests plan.kept) ≡ true
plan_keeps_protected repository keep protected references newer older v plan h hn ho u f =
    let made = plan_made (newer ++ v ∷ older) repository keep protected references plan h in
    selected-kept (newer ++ v ∷ older) repository keep protected references plan h v.digest
      (digests-listed newer older v)
      (select_registry_versions-free repository keep protected
        (excluded_of (children_of references) (newer ++ v ∷ older)) newer older v made.selected hn
        ho (excluded-at (children_of references) newer older v hn ho u) f made.chosen)
