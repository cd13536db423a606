-- ===== src/Registry/Retention/Plan/Safe.antt =====
-- What a plan guarantees: what it keeps, what it deletes, and in which order.
use redlaunch.Base.{
  ◌+◌, ◌≡◌, refl, sym, ap, ◌∙◌, Bool, true, false, not, inl, inr, List, [], ◌∷◌, ◌++◌, Text, has,
  length, ◌&&◌, if◌then◌else◌, arith, text_eq_iff, has-cons_self, Bool-cases, Bool-ext,
  has-append_right, ok, select, select-select, append_assoc, append-nil,
}
use redlaunch.Base.Number.{ℤ}
use redlaunch.Base.Assoc.{Table}
use redlaunch.Registry.Types.{Version}
use redlaunch.Registry.Retention.Select.{digests}
use redlaunch.Registry.Retention.Graph.{references_of, children_of, retain_all}
use redlaunch.Registry.Retention.Graph.Closed.{retain_all-closed, retain_all-start}
use redlaunch.Registry.Retention.Sweep.{start, parents_of, by_digest}
use redlaunch.Registry.Retention.Sweep.Swept.{Swept}
use redlaunch.Registry.Retention.Sweep.Listing.{Valid}
use redlaunch.Registry.Retention.Sweep.Maps.{parents_of-has, refers_complete}
use redlaunch.Registry.Retention.Plan.{Plan, plan_registry_retention, classify, is_untagged_child}
use redlaunch.Registry.Retention.Plan.Listed.{
  Distinct, ParentsFirst-at, plan_listing, listed-ordered, listed-known, ordered-listed,
  ordered-unkept, listing-Distinct, listing-ParentsFirst, digests-append,
}
use redlaunch.Registry.Retention.Plan.Ordering.{order_all-Swept, order_all-Valid}
use redlaunch.Registry.Retention.Plan.Complete.{Made, plan_made}

abbrev is_kept : List Text → Version → Bool
is_kept keep_set v = has v.digest keep_set

abbrev is_purged : List Text → Version → Bool
is_purged keep_set v = not (has v.digest keep_set)

is_counted : List Text → List Text → Version → Bool
is_counted keep_set children v = not (has v.digest keep_set) && not (is_untagged_child children v)

record Classified (keep_set children : List Text) (vs : List Version) (plan plan' : Plan)
    : Type 0 where
  kept_of : plan'.kept ≡ plan.kept ++ select (is_kept keep_set) vs
  purged_of : plan'.purged ≡ plan.purged ++ select (is_purged keep_set) vs
  order_of : plan'.delete_order ≡ plan.delete_order
  counted :
      plan'.purged_versions
      ≡ plan.purged_versions + length (select (is_counted keep_set children) vs)

classify_lem :
    (keep_set children : List Text) (vs : List Version) (plan : Plan)
    → Classified keep_set children vs plan (classify keep_set children vs plan)
unfolding classify select is_counted
classify_lem keep_set children [] plan = record {
  kept_of = sym (append-nil plan.kept);
  purged_of = sym (append-nil plan.purged);
  order_of = refl;
  counted = omega arith;
}
classify_lem keep_set children (v ∷ vs) plan = elim (Bool-cases (has v.digest keep_set)) [
  | inl k ↦
      let c = classify_lem keep_set children vs (record plan { kept = plan.kept ++ v ∷ [] }) in
      rw k (record {
        kept_of = rw k (c.kept_of ∙ append_assoc plan.kept (v ∷ []) (select (is_kept keep_set) vs));
        purged_of = rw k c.purged_of;
        order_of = c.order_of;
        counted = ground (arith, c.counted);
      })
  | inr p ↦
      let c = classify_lem keep_set children vs (record plan {
        purged = plan.purged ++ v ∷ [];
        purged_versions =
            if is_untagged_child children v then plan.purged_versions else plan.purged_versions + 1;
      }) in
      rw p (record {
        kept_of = rw p c.kept_of;
        purged_of =
            rw p (c.purged_of ∙ append_assoc plan.purged (v ∷ []) (select (is_purged keep_set) vs));
        order_of = c.order_of;
        counted = ground (arith, c.counted);
      })
]

has-kept :
    (keep_set : List Text) (vs : List Version) (d : Text)
    → has d (digests (select (is_kept keep_set) vs)) ≡ (has d (digests vs) && has d keep_set)
unfolding select has
has-kept keep_set [] d = ground arith
has-kept keep_set (v ∷ vs) d = ground (arith, has-kept keep_set vs d, text_eq_iff v.digest d)

has-purged :
    (keep_set : List Text) (vs : List Version) (d : Text)
    → has d (digests (select (is_purged keep_set) vs))
      ≡ (has d (digests vs) && not (has d keep_set))
unfolding select has
has-purged keep_set [] d = ground arith
has-purged keep_set (v ∷ vs) d = ground (arith, has-purged keep_set vs d, text_eq_iff v.digest d)

module _ (versions : List Version) (repository : Text) (keep : ℤ) (protected : Text → Bool)
    (references : Table (List Text)) (plan : Plan)
    (made : plan_registry_retention versions repository keep protected references ≡ ok plan) where
  parts : Made versions repository keep protected references plan
  parts = plan_made versions repository keep protected references plan made

  -- the digests that the plan keeps
  retained : List Text
  retained = (retain_all references parts.selected).keep_set

  classified :
      Classified retained
        (children_of references)
        versions
        (record {
          kept = [];
          purged = [];
          delete_order = parts.sweep.delete_order;
          purged_versions = 0;
        })
        plan
  unfolding retained
  classified = rw parts.classified (classify_lem retained (children_of references) versions _)

  kept-has : (d : Text) → has d (digests plan.kept) ≡ (has d (digests versions) && has d retained)
  kept-has d =
      ap (λ (vs : List Version). has d (digests vs)) classified.kept_of
      ∙ has-kept retained versions d

  purged-has :
      (d : Text) → has d (digests plan.purged) ≡ (has d (digests versions) && not (has d retained))
  purged-has d =
      ap (λ (vs : List Version). has d (digests vs)) classified.purged_of
      ∙ has-purged retained versions d

  swept :
      Swept retained
        (parents_of references versions)
        (by_digest versions)
        (digests versions)
        start
        parts.sweep
  unfolding retained
  swept = order_all-Swept references versions retained parts.sweep parts.swept

  valid : Valid retained (parents_of references versions) (by_digest versions) parts.sweep
  unfolding retained
  valid = order_all-Valid references versions retained parts.sweep parts.swept

  deleted : plan.delete_order ≡ plan_listing references versions retained parts.sweep.ordered
  deleted = classified.order_of ∙ valid.listed

  -- Each child manifest of a kept version is safe: it is not deleted, and it is kept if it is listed.
  pub plan_keeps_children :
      (d c : Text)
      → has d (digests plan.kept) ≡ true
      → has c (references_of references d) ≡ true
      → (has c (digests plan.delete_order) ≡ false)
        × (has c (digests versions) ≡ true → has c (digests plan.kept) ≡ true)
  unfolding retained
  plan_keeps_children d c h k =
      let closed = retain_all-closed references parts.selected d c (ground (arith, kept-has d)) k in
      (
        rw deleted (
            ground (
              arith,
              listed-ordered references versions retained parts.sweep.ordered c,
              ordered-unkept references versions retained parts.sweep.ordered c valid.ordered_well,
            )),
        λ v. ground (arith, kept-has c),
      )

  -- The digests that are deleted are those of the purged versions, each is deleted once, and a
  -- listed version is either kept or purged.
  pub plan_deletes_purged :
      ((d : Text) → has d (digests plan.delete_order) ≡ has d (digests plan.purged))
      × Distinct (digests plan.delete_order)
      × ((d : Text)
          → has d (digests versions) ≡ true
          → has d (digests plan.purged) ≡ not (has d (digests plan.kept)))
  plan_deletes_purged = (
    λ d. rw deleted (same d),
    rw deleted
        (listing-Distinct references versions retained parts.sweep.ordered valid.ordered_well),
    λ d v. ground (arith, kept-has d, purged-has d),
  )
    where
      same :
          (d : Text)
          → has d (digests (plan_listing references versions retained parts.sweep.ordered))
            ≡ has d (digests plan.purged)
      same d =
          Bool-ext _ _
            (λ h. ground (
              arith,
              purged-has d,
              listed-known references versions retained parts.sweep.ordered d h,
              ordered-unkept references versions retained parts.sweep.ordered d valid.ordered_well
                  (listed-ordered references versions retained parts.sweep.ordered d h),
            ))
            (λ h. ground (
              arith,
              purged-has d,
              swept.hits d,
              ordered-listed references versions retained parts.sweep.ordered d,
            ))

  -- A manifest is deleted after every listed index that refers to it.
  pub plan_deletes_parents_first :
      (before after : List Version) (v : Version) (p : Text)
      → plan.delete_order ≡ before ++ v ∷ after
      → has p (digests versions) ≡ true
      → has v.digest (references_of references p) ≡ true
      → has p (digests before) ≡ true
  unfolding retained has
  plan_deletes_parents_first before after v p e h k =
      let split = sym deleted ∙ e in
      let here : has v.digest
            (digests (plan_listing references versions retained parts.sweep.ordered))
          ≡ true =
        rw (split, digests-append before (v ∷ after))
          (has-append_right v.digest (digests before) (digests (v ∷ after))
            (has-cons_self v.digest (digests after))) in
      let first =
        ParentsFirst-at retained (parents_of references versions) before after [] v
          (rw split at (
            listing-ParentsFirst references versions retained parts.sweep.ordered
              valid.ordered_well))
          p
          (parents_of-has references versions p v.digest
            ∙ refers_complete references versions p v.digest h k) in
      ground (
        arith,
        first,
        retain_all-closed references parts.selected p v.digest,
        ordered-unkept references versions retained parts.sweep.ordered v.digest valid.ordered_well
            (listed-ordered references versions retained parts.sweep.ordered v.digest here),
      )

  -- A version is kept if the policy selects it, and so is one that a kept version refers to.
  pub selected-kept :
      (d : Text)
      → has d (digests versions) ≡ true
      → has d (plan_made versions repository keep protected references plan made).selected ≡ true
      → has d (digests plan.kept) ≡ true
  unfolding retained parts
  selected-kept d v h = ground (arith, kept-has d, retain_all-start references parts.selected d h)

  -- `PurgedVersions` counts the purged versions, but for the untagged children of an index.
  pub plan_counts_purged :
      plan.purged_versions
      ≡ length (select (λ v. not (is_untagged_child (children_of references) v)) plan.purged)
  unfolding is_counted
  plan_counts_purged =
      let untagged = λ (v : Version). not (is_untagged_child (children_of references) v) in
      omega (
        arith,
        classified.counted,
        ap (λ (vs : List Version). length (select untagged vs)) classified.purged_of,
        ap (λ (vs : List Version). length vs)
            (select-select (is_purged retained) untagged versions),
      )
