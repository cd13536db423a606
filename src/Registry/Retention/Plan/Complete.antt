-- ===== src/Registry/Retention/Plan/Complete.antt =====
-- When PlanRegistryRetention returns a plan, and from which parts it is made.
use redlaunch.Base.{
  ℕ, ◌<◌, ◌≡◌, sym, Bool, true, ◌⊎◌, inl, inr, List, [], ◌∷◌, Text, has, arith, none, subst,
  Result-cases, has-cons, has-cons_self, Option-cases, >>=-eq-err, Result, ok, err, ◌>>=◌,
  >>=-eq-ok, IsOk,
}
use redlaunch.Base.Number.{ℤ, pos, negsuc}
use redlaunch.Base.Assoc.{Table, lookup}
use redlaunch.Registry.Types.{
  Version, Error, graph_cycle, graph_incomplete, keep_invalid, validate_registry_keep_count,
}
use redlaunch.Registry.Retention.Select.{digests, select_registry_versions}
use redlaunch.Registry.Retention.Graph.{references_of, children_of, retain_all}
use redlaunch.Registry.Retention.Graph.Ended.{Run, retain_all-Run}
use redlaunch.Registry.Retention.Sweep.{Sweep}
use redlaunch.Registry.Retention.Plan.{
  Plan, plan_registry_retention, order_all, classify, excluded_of, check_graph, check_references,
}
use redlaunch.Registry.Retention.Plan.Ordering.{Ranked, order_all-cycle, order_all-IsOk}

-- a keep count that is not between 0 and 100
abbrev pub IsOutOfRange : ℤ → Type 0
IsOutOfRange (pos n) = 100 < n
IsOutOfRange (negsuc n) = Unit

select-error :
    (versions : List Version) (repository : Text) (keep : ℤ) (protected : Text → Bool)
    (excluded : List Text) (e : Error)
    → select_registry_versions versions repository keep protected excluded ≡ err e
    → (e ≡ keep_invalid) × IsOutOfRange keep
unfolding select_registry_versions validate_registry_keep_count
select-error versions repository (pos n) protected excluded e h = (ground arith, ground arith)
select-error versions repository (negsuc n) protected excluded e h = (ground arith, tt)

select-IsOk :
    (versions : List Version) (repository : Text) (keep : ℤ) (protected : Text → Bool)
    (excluded : List Text)
    → IsOk (validate_registry_keep_count keep)
    → IsOk (select_registry_versions versions repository keep protected excluded)
unfolding select_registry_versions
select-IsOk versions repository keep protected excluded h =
    bound _ (validate_registry_keep_count keep) h
  where
    bound : {A B E : Type 0} (b : B) (r : Result E A) → IsOk r → IsOk (r >>= λ _. ok b)
    bound b (ok a) h = tt
    bound b (err e) h = h

-- the parts of a plan
pub record Made (versions : List Version) (repository : Text) (keep : ℤ) (protected : Text → Bool)
    (references : Table (List Text)) (plan : Plan) : Type 0 where
  pub selected : List Text
  pub sweep : Sweep
  pub chosen :
      select_registry_versions versions repository keep protected
        (excluded_of (children_of references) versions)
      ≡ ok selected
  pub swept : order_all references versions (retain_all references selected).keep_set ≡ ok sweep
  pub classified :
      plan
      ≡ classify
          (retain_all references selected).keep_set
          (children_of references)
          versions
          (record {
            kept = [];
            purged = [];
            delete_order = sweep.delete_order;
            purged_versions = 0;
          })

module _ (versions : List Version) (repository : Text) (keep : ℤ) (protected : Text → Bool)
    (references : Table (List Text)) where
  pub plan_made :
      (plan : Plan)
      → plan_registry_retention versions repository keep protected references ≡ ok plan
      → Made versions repository keep protected references plan
  unfolding plan_registry_retention
  plan_made plan h =
      let (_, _, h1) = >>=-eq-ok (check_graph references versions) _ h in
      let (selected, c, h2) =
        >>=-eq-ok
          (select_registry_versions versions repository keep protected
            (excluded_of (children_of references) versions))
          _ h1 in
      let (sweep, s, h3) =
        >>=-eq-ok (order_all references versions (retain_all references selected).keep_set) _ h2 in
      record { selected = selected; sweep = sweep; chosen = c; swept = s; classified = cc }

  -- a manifest of the listing refers to one of which the references are not known
  pub record Incomplete : Type 0 where
    pub parent : Text
    pub unknown : Text
    pub listed : has parent (digests versions) ≡ true
    pub refers : has unknown (references_of references parent) ≡ true
    pub absent : lookup unknown references ≡ none

  -- how PlanRegistryRetention can end
  abbrev pub Ended : Result Error Plan → Type 0
  Ended (ok plan) = Made versions repository keep protected references plan
  Ended (err e) =
      ((e ≡ graph_incomplete) × Incomplete)
      ⊎ ((e ≡ keep_invalid) × IsOutOfRange keep)
      ⊎ ((e ≡ graph_cycle) × ((rank : Text → ℕ) → ¬ Ranked references versions rank))

  check_references-error :
      (ds : List Text) (e : Error)
      → check_references references ds ≡ err e
      → (e ≡ graph_incomplete) × (c : Text) × (has c ds ≡ true) × (lookup c references ≡ none)
  unfolding check_references has
  check_references-error [] e h = cc
  check_references-error (d ∷ ds) e h = elim (Option-cases (lookup d references)) [
    | inl gone ↦ (ground arith, d, has-cons_self d ds, gone)
    | inr (refs, there) ↦
        let (same, c, listed, gone) =
          check_references-error ds e (rw (there, check_references) at h) in
        (same, c, has-cons c d ds listed, gone)
  ]

  check_graph-error :
      (vs : List Version) (e : Error)
      → check_graph references vs ≡ err e
      → (e ≡ graph_incomplete)
        × (d : Text) × (c : Text) × (has d (digests vs) ≡ true)
        × (has c (references_of references d) ≡ true)
        × (lookup c references ≡ none)
  unfolding check_graph
  check_graph-error [] e h = cc
  check_graph-error (v ∷ vs) e h =
      elim (>>=-eq-err (check_references references (references_of references v.digest)) _ h) [
        | inl k ↦
            let (same, c, refers, gone) =
              check_references-error (references_of references v.digest) e k in
            (same, v.digest, c, has-cons_self v.digest (digests vs), refers, gone)
        | inr (u, p, k) ↦
            let (same, d, c, listed, refers, gone) = check_graph-error vs e k in
            (same, d, c, has-cons d v.digest (digests vs) listed, refers, gone)
      ]

  order_all-Ended :
      (keep_set : List Text) (e : Error)
      → order_all references versions keep_set ≡ err e
      → (e ≡ graph_cycle) × ((rank : Text → ℕ) → ¬ Ranked references versions rank)
  order_all-Ended keep_set e h = (
    order_all-cycle references versions keep_set e h,
    λ rank falls. rw h at (order_all-IsOk references versions keep_set rank falls),
  )

  plan-Ended :
      (e : Error)
      → plan_registry_retention versions repository keep protected references ≡ err e
      → Ended (err e)
  unfolding plan_registry_retention
  plan-Ended e h = elim (>>=-eq-err (check_graph references versions) _ h) [
    | inl k ↦
        let (same, d, c, listed, refers, gone) = check_graph-error versions e k in
        inl (
          same,
          record { parent = d; unknown = c; listed = listed; refers = refers; absent = gone },
        )
    | inr (u, p, k) ↦
        elim (>>=-eq-err
          (select_registry_versions versions repository keep protected
            (excluded_of (children_of references) versions))
          _ k) [
            | inl k' ↦ inr (
                inl (
                  select-error versions repository keep protected
                    (excluded_of (children_of references) versions) e k'))
            | inr (selected, c, k') ↦
                let keep_set = (retain_all references selected).keep_set in
                elim (>>=-eq-err (order_all references versions keep_set) _ k') [
                  | inl k'' ↦ inr (inr (order_all-Ended keep_set e k''))
                  | inr (sweep, q, k'') ↦ cc
                ]
          ]
  ]

  -- The recursive calls of retainChildren come to an end from any set of digests, and what they leave
  -- is the retained set of the model. PlanRegistryRetention returns a plan that is made from the
  -- policy's choice, the retained set and the order of deletion; or it fails because a manifest of the
  -- listing refers to one of which the references are not known, or because the keep count is not
  -- between 0 and 100, or with graph_cycle where no numbering of the digests gives every manifest of the
  -- listing a smaller number than its children. It never ends for lack of fuel.
  pub plan_registry_retention_ends :
      ((keep_set : List Text)
        → Run references keep_set
            (record { visited = []; keep_set = keep_set })
            (retain_all references keep_set))
      × Ended (plan_registry_retention versions repository keep protected references)
  plan_registry_retention_ends = (
    retain_all-Run references,
    elim (Result-cases (plan_registry_retention versions repository keep protected references)) [
      | inl (e, h) ↦ subst Ended (sym h) (plan-Ended e h)
      | inr (plan, h) ↦ subst Ended (sym h) (plan_made plan h)
    ],
  )

  ok_sweep :
      (f : Sweep → Plan) (r : Result Error Sweep) → IsOk r → IsOk (r >>= λ sweep. ok (f sweep))
  ok_sweep f (ok sweep) h = tt
  ok_sweep f (err e) h = h

  ok_select :
      (r : Result Error (List Text)) (f : List Text → Sweep → Plan) (rank : Text → ℕ)
      → Ranked references versions rank
      → IsOk r
      → IsOk (
          r >>= λ selected.
          order_all references versions (retain_all references selected).keep_set >>= λ sweep.
          ok (f selected sweep))
  ok_select (err e) f rank falls h = h
  ok_select (ok selected) f rank falls h =
      ok_sweep (f selected) _
        (order_all-IsOk references versions (retain_all references selected).keep_set rank falls)

  -- With a complete graph, a keep count in range and no cycle among the manifests, a plan is made.
  pub plan_registry_retention-IsOk :
      (rank : Text → ℕ)
      → check_graph references versions ≡ ok tt
      → IsOk (validate_registry_keep_count keep)
      → Ranked references versions rank
      → IsOk (plan_registry_retention versions repository keep protected references)
  unfolding plan_registry_retention
  plan_registry_retention-IsOk rank complete valid falls = rw complete (
      ok_select
        (select_registry_versions versions repository keep protected
          (excluded_of (children_of references) versions))
        _ rank falls
        (select-IsOk versions repository keep protected
          (excluded_of (children_of references) versions) valid))
