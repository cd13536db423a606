-- ===== src/Registry/Retention/Graph/Ended.antt =====
-- The recursion of the closure `retainChildren` without a bound on its depth, and the fuel that is
-- enough for it.
use redlaunch.Base.{
  ℕ, zero, suc, ◌<◌, ◌≡◌, refl, true, false, List, [], ◌∷◌, Text, has, length, arith, inl, inr,
  Bool-cases,
}
use redlaunch.Base.Assoc.{Table, lookup}
use redlaunch.Registry.Retention.Graph.{Walk, references_of, each, retain_children, retain_all}
use redlaunch.Registry.Retention.Graph.Closed.{
  fresh, fresh-le, fresh_mono, enter, Ready, Ready-fuel, Ready-enter, retain_children-Walked,
}

-- The calls of `retainChildren` on the digests in turn, with all the calls below them, take the first
-- walk to the second.
pub data Run (references : Table (List Text)) : List Text → Walk → Walk → Type 0 where
  done : {w : Walk} → Run references [] w w
  seen :
      {d : Text} {ds : List Text} {w w' : Walk}
      → has d w.visited ≡ true
      → Run references ds w w'
      → Run references (d ∷ ds) w w'
  enters :
      {d : Text} {ds : List Text} {w w' w'' : Walk}
      → has d w.visited ≡ false
      → Run references
          (references_of references d)
          (record { visited = d ∷ w.visited; keep_set = d ∷ w.keep_set })
          w'
      → Run references ds w' w''
      → Run references (d ∷ ds) w w''

module _ (references : Table (List Text)) where
  Run-then :
      (d : Text) (ds : List Text) (w w' w'' : Walk)
      → Run references (d ∷ []) w w'
      → Run references ds w' w''
      → Run references (d ∷ ds) w w''
  Run-then d ds w w' w'' (seen h done) r = seen h r
  Run-then d ds w w' w'' (enters h below done) r = enters h below r

  each-Run :
      (fuel : ℕ)
      → ((d : Text) (w : Walk)
          → fresh references w.visited < fuel
          → Run references (d ∷ []) w (retain_children references fuel d w))
      → (ds : List Text) (w : Walk) → Ready references fuel ds w
      → Run references ds w (each (retain_children references fuel) ds w)
  unfolding each
  each-Run fuel one [] w r = done
  each-Run fuel one (d ∷ ds) w r =
      let next = retain_children references fuel d w in
      Run-then d ds w next _ (one d w r) (
        each-Run fuel one ds next (
          Ready-fuel references fuel ds next (
            omega (
              arith,
              fresh_mono references w.visited next.visited
                  (retain_children-Walked references fuel d w r).grows,
            ))))

  retain_children-Run :
      (fuel : ℕ) (d : Text) (w : Walk)
      → fresh references w.visited < fuel
      → Run references (d ∷ []) w (retain_children references fuel d w)
  unfolding retain_children
  retain_children-Run zero d w r = absurd (omega arith)
  retain_children-Run (suc fuel) d w r = elim (Bool-cases (has d w.visited)) [
    | inl old ↦ rw old (seen old done)
    | inr new ↦ rw new (
        enters new
          (each-Run fuel (retain_children-Run fuel) (references_of references d)
            (enter references d w)
            (unfold references_of in
              Ready-enter references fuel d w new r (lookup d references) refl))
          done)
  ]

  pub retain_all-Run :
      (keep_set : List Text)
      → Run references keep_set
          (record { visited = []; keep_set = keep_set })
          (retain_all references keep_set)
  unfolding retain_all
  retain_all-Run keep_set =
      each-Run (suc (length references)) (retain_children-Run (suc (length references))) keep_set _
        (Ready-fuel references (suc (length references)) keep_set _
          (omega (arith, fresh-le references [])))
