-- ===== src/Registry/Retention/Sweep/Listing.antt =====
-- The order of the deletions: parents before children, no kept digest, none twice.
use redlaunch.Base.{
  ℕ, zero, suc, ◌<◌, ◌≡◌, ◌≢◌, Option, refl, true, false, ◌⊎◌, inl, inr, List, [], ◌∷◌, Text, has,
  ◌||◌, arith, text_eq_iff, Bool-cases, Result, ok, err, ◌>>=◌,
}
use redlaunch.Registry.Types.{Version, Error}
use redlaunch.Registry.Retention.Sweep.{Sweep, each_parent, order_deletion, enter, leave, appended}
use redlaunch.Registry.Retention.Sweep.Swept.{
  Swept, Post, unmarked, Ready, Ready-fuel, Ready-enter, unmarked_same, order_deletion-Post,
  each_parent-Post,
}

module _ (keep_set : List Text) (parents : Text → List Text) (find : Text → Option Version) where
  -- the latest ordered digest stands first: those behind it hold its parents, and not itself
  abbrev pub Ordered : List Text → Type 0
  Ordered [] = Unit
  Ordered (d ∷ earlier) =
      (has d keep_set ≡ false)
      × (has d earlier ≡ false)
      × ((p : Text) → has p (parents d) ≡ true → (has p keep_set ≡ true) ⊎ (has p earlier ≡ true))
      × Ordered earlier

  -- the versions of the ordered digests, in the order in which they were ordered
  abbrev pub listing : List Text → List Version
  listing [] = []
  listing (d ∷ earlier) = appended (find d) (listing earlier)

  pub record Valid (s : Sweep) : Type 0 where
    pub ordered_well : Ordered s.ordered
    pub listed : s.delete_order ≡ listing s.ordered

  abbrev pub IfOk : Result Error Sweep → Type 0
  IfOk (ok s) = Valid s
  IfOk (err e) = Unit

  Valid-leave :
      (d : Text) (s s' : Sweep)
      → (has d keep_set || has d s.ordered) ≡ false
      → s.visiting d ≡ false
      → Swept keep_set parents find (parents d) (enter keep_set parents find d s) s'
      → Valid s'
      → Valid (leave keep_set parents find d s')
  unfolding enter leave
  Valid-leave d s s' n v b h = record {
    ordered_well =
        (ground arith, ground (arith, b.skips d, text_eq_iff d d), b.hits, h.ordered_well);
    listed = rw h.listed;
  }

  IfOk-bind :
      (step : Text → Sweep → Result Error Sweep) (ds : List Text) (s : Sweep) (d : Text)
      (r : Result Error Sweep)
      → Post keep_set parents find (d ∷ []) s r
      → IfOk r
      → ((s' : Sweep)
          → Swept keep_set parents find (d ∷ []) s s'
          → Valid s'
          → IfOk (each_parent step ds s'))
      → IfOk (r >>= λ s'. each_parent step ds s')
  IfOk-bind step ds s d (ok s') p h k = k s' p h
  IfOk-bind step ds s d (err e) p h k = tt

  IfOk-leave :
      (d : Text) (s : Sweep) (r : Result Error Sweep)
      → (has d keep_set || has d s.ordered) ≡ false
      → s.visiting d ≡ false
      → Post keep_set parents find (parents d) (enter keep_set parents find d s) r
      → IfOk r
      → IfOk (r >>= λ s'. ok (leave keep_set parents find d s'))
  IfOk-leave d s (ok s') n v p h = Valid-leave d s s' n v p h
  IfOk-leave d s (err e) n v p h = tt

module _ (keep_set : List Text) (parents : Text → List Text) (find : Text → Option Version)
    (children : List Text) (known : (d : Text) → parents d ≢ [] → has d children ≡ true) where
  abbrev Fits : ℕ → Sweep → Type 0
  Fits fuel s = unmarked s.visiting children < fuel

  pub each_parent-Valid :
      (fuel : ℕ) (step : Text → Sweep → Result Error Sweep)
      → ((d : Text) (s : Sweep) → Fits fuel s → Post keep_set parents find (d ∷ []) s (step d s))
      → ((d : Text) (s : Sweep)
          → Fits fuel s
          → Valid keep_set parents find s
          → IfOk keep_set parents find (step d s))
      → (ds : List Text) (s : Sweep) → Ready keep_set parents find children known fuel ds s
      → Valid keep_set parents find s
      → IfOk keep_set parents find (each_parent step ds s)
  unfolding each_parent
  each_parent-Valid fuel step one valid [] s r h = h
  each_parent-Valid fuel step one valid (d ∷ ds) s r h =
      IfOk-bind keep_set parents find step ds s d (step d s) (one d s r) (valid d s r h) λ s' w h'.
        each_parent-Valid fuel step one valid ds s'
          (Ready-fuel keep_set parents find children known fuel ds s'
            (rw (unmarked_same s'.visiting s.visiting children w.same_visiting) r))
          h'

  pub order_deletion-Valid :
      (fuel : ℕ) (d : Text) (s : Sweep)
      → Fits fuel s
      → Valid keep_set parents find s
      → IfOk keep_set parents find (order_deletion keep_set parents find fuel d s)
  unfolding order_deletion
  order_deletion-Valid zero d s r h = absurd (omega arith)
  order_deletion-Valid (suc fuel) d s r h = elim (Bool-cases (has d keep_set || has d s.ordered)) [
    | inl done ↦ rw done h
    | inr more ↦ elim (Bool-cases (s.visiting d)) [
      | inl loop ↦ rw (more, loop) tt
      | inr new ↦
          rw (more, new)
            (let ready =
                Ready-enter keep_set parents find children known fuel d s (parents d) new r refl in
              let step = order_deletion keep_set parents find fuel in
              let post = order_deletion-Post keep_set parents find children known fuel in
              IfOk-leave keep_set parents find d s _ more new
                (each_parent-Post keep_set parents find children known fuel step post (parents d) _
                  ready)
                (each_parent-Valid fuel step post (order_deletion-Valid fuel) (parents d) _ ready
                  (unfold enter in record { ordered_well = h.ordered_well; listed = h.listed })))
    ]
  ]
