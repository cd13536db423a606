-- ===== src/Registry/Retention/Plan/Ordering.antt =====
-- The order of deletion of PlanRegistryRetention, over all the versions of a listing.
use redlaunch.Base.{
  ℕ, suc, ◌<◌, ◌≡◌, refl, sym, ◌∙◌, true, List, Text, has, length, arith, ok, err, IsOk,
}
use redlaunch.Base.Assoc.{Table}
use redlaunch.Registry.Types.{Version, Error, graph_cycle}
use redlaunch.Registry.Retention.Select.{digests}
use redlaunch.Registry.Retention.Graph.{references_of, children_of}
use redlaunch.Registry.Retention.Sweep.{Sweep, start, parents_of, by_digest}
use redlaunch.Registry.Retention.Sweep.Swept.{
  Swept, Post, Ready-fuel, unmarked, unmarked-le, order_deletion-Post, each_parent-Post,
}
use redlaunch.Registry.Retention.Sweep.Listing.{
  Valid, IfOk, order_deletion-Valid, each_parent-Valid,
}
use redlaunch.Registry.Retention.Sweep.Acyclic.{order_deletion-IsOk, each_parent-IsOk}
use redlaunch.Registry.Retention.Sweep.Maps.{parents_of-has, parents_known, refers_sound}
use redlaunch.Registry.Retention.Plan.{order_all}

-- each digest that refers to another one has a smaller number than it: there is no cycle
abbrev pub Ranked : Table (List Text) → List Version → (Text → ℕ) → Type 0
Ranked references versions rank =
    (p c : Text)
    → has p (digests versions) ≡ true
    → has c (references_of references p) ≡ true
    → rank p < rank c

module _ (references : Table (List Text)) (versions : List Version) (keep_set : List Text) where
  enough : unmarked start.visiting (children_of references) < suc (length (children_of references))
  enough = omega (arith, unmarked-le start.visiting (children_of references))

  swept :
      Post keep_set
        (parents_of references versions)
        (by_digest versions)
        (digests versions)
        start
        (order_all references versions keep_set)
  unfolding order_all
  swept =
      each_parent-Post keep_set _ _ (children_of references) (parents_known references versions) _ _
        (order_deletion-Post keep_set _ _ _ (parents_known references versions) _)
        (digests versions) start
        (Ready-fuel keep_set _ (by_digest versions) _ (parents_known references versions) _
          (digests versions) start enough)

  valid :
      IfOk keep_set
        (parents_of references versions)
        (by_digest versions)
        (order_all references versions keep_set)
  unfolding order_all
  valid =
      each_parent-Valid keep_set _ _ (children_of references) (parents_known references versions) _
        _ (order_deletion-Post keep_set _ _ _ (parents_known references versions) _)
        (order_deletion-Valid keep_set _ _ _ (parents_known references versions) _)
        (digests versions) start
        (Ready-fuel keep_set _ (by_digest versions) _ (parents_known references versions) _
          (digests versions) start enough)
        (record { ordered_well = tt; listed = refl })

  pub order_all-Swept :
      (s : Sweep)
      → order_all references versions keep_set ≡ ok s
      → Swept keep_set
          (parents_of references versions)
          (by_digest versions)
          (digests versions)
          start
          s
  order_all-Swept s e = rw e at swept

  pub order_all-Valid :
      (s : Sweep)
      → order_all references versions keep_set ≡ ok s
      → Valid keep_set (parents_of references versions) (by_digest versions) s
  order_all-Valid s e = rw e at valid

  pub order_all-cycle :
      (e : Error) → order_all references versions keep_set ≡ err e → e ≡ graph_cycle
  order_all-cycle e h = rw h at swept

  pub order_all-IsOk :
      (rank : Text → ℕ)
      → Ranked references versions rank
      → IsOk (order_all references versions keep_set)
  unfolding order_all
  order_all-IsOk rank falls =
      each_parent-IsOk keep_set _ _ (children_of references) (parents_known references versions)
        rank falling _ _ (order_deletion-Post keep_set _ _ _ (parents_known references versions) _)
        (order_deletion-IsOk keep_set _ _ _ (parents_known references versions) rank falling _)
        (digests versions) start
        (Ready-fuel keep_set _ (by_digest versions) _ (parents_known references versions) _
          (digests versions) start enough)
        (λ d h x v. cc)
    where
      falling : (d p : Text) → has p (parents_of references versions d) ≡ true → rank p < rank d
      falling d p h =
          let (a, b) =
            refers_sound references versions p d
              (sym (parents_of-has references versions p d) ∙ h) in
          falls p d a b
