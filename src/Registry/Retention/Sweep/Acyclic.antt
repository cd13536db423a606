-- ===== src/Registry/Retention/Sweep/Acyclic.antt =====
-- On an acyclic graph the ordering succeeds.
use redlaunch.Base.{
  ℕ, zero, suc, ◌<◌, ◌≡◌, ◌≢◌, Option, refl, sym, ◌∙◌, true, inl, inr, List, [], ◌∷◌, Text, has,
  ◌||◌, arith, text_eq_iff, has-cons, has-cons_self, Bool-cases, Result, ok, err, ◌>>=◌, IsOk,
}
use redlaunch.Registry.Types.{Version, Error}
use redlaunch.Registry.Retention.Sweep.{Sweep, each_parent, order_deletion, enter, leave}
use redlaunch.Registry.Retention.Sweep.Swept.{
  Swept, Post, unmarked, Ready, Ready-fuel, Ready-enter, unmarked_same, order_deletion-Post,
}

module _ (keep_set : List Text) (parents : Text → List Text) (find : Text → Option Version)
    (children : List Text) (known : (d : Text) → parents d ≢ [] → has d children ≡ true)
    (rank : Text → ℕ) (falls : (d p : Text) → has p (parents d) ≡ true → rank p < rank d) where
  -- the digests being visited lie below `d`
  abbrev Above : Text → Sweep → Type 0
  Above d s = (x : Text) → s.visiting x ≡ true → rank d < rank x

  abbrev Succeeds : Result Error Sweep → Type 0
  Succeeds = IsOk

  Above-enter :
      (d p : Text) (s : Sweep)
      → has p (parents d) ≡ true
      → Above d s
      → Above p (enter keep_set parents find d s)
  unfolding enter
  Above-enter d p s h a x v = ground (arith, falls d p h, a x, text_eq_iff d x)

  IsOk-bind :
      (step : Text → Sweep → Result Error Sweep) (ds : List Text) (s : Sweep) (d : Text)
      (r : Result Error Sweep)
      → Post keep_set parents find (d ∷ []) s r
      → IsOk r
      → ((s' : Sweep) → Swept keep_set parents find (d ∷ []) s s' → IsOk (each_parent step ds s'))
      → IsOk (r >>= λ s'. each_parent step ds s')
  IsOk-bind step ds s d (ok s') p h k = k s' p
  IsOk-bind step ds s d (err e) p h k = h

  IsOk-leave :
      (d : Text) (r : Result Error Sweep)
      → IsOk r
      → IsOk (r >>= λ s'. ok (leave keep_set parents find d s'))
  IsOk-leave d (ok s') h = tt
  IsOk-leave d (err e) h = h

  abbrev Fits : ℕ → Sweep → Type 0
  Fits fuel s = unmarked s.visiting children < fuel

  pub each_parent-IsOk :
      (fuel : ℕ) (step : Text → Sweep → Result Error Sweep)
      → ((d : Text) (s : Sweep) → Fits fuel s → Post keep_set parents find (d ∷ []) s (step d s))
      → ((d : Text) (s : Sweep) → Fits fuel s → Above d s → IsOk (step d s))
      → (ds : List Text) (s : Sweep) → Ready keep_set parents find children known fuel ds s
      → ((d : Text) → has d ds ≡ true → Above d s)
      → IsOk (each_parent step ds s)
  unfolding each_parent
  each_parent-IsOk fuel step post one [] s r a = tt
  each_parent-IsOk fuel step post one (d ∷ ds) s r a =
      IsOk-bind step ds s d (step d s) (post d s r) (one d s r (a d (has-cons_self d ds))) λ s' w.
        each_parent-IsOk fuel step post one ds s'
          (Ready-fuel keep_set parents find children known fuel ds s'
            (rw (unmarked_same s'.visiting s.visiting children w.same_visiting) r))
          (λ x h y v. a x (has-cons x d ds h) y (sym (w.same_visiting y) ∙ v))

  pub order_deletion-IsOk :
      (fuel : ℕ) (d : Text) (s : Sweep)
      → Fits fuel s
      → Above d s
      → IsOk (order_deletion keep_set parents find fuel d s)
  unfolding order_deletion
  order_deletion-IsOk zero d s r a = absurd (omega arith)
  order_deletion-IsOk (suc fuel) d s r a = elim (Bool-cases (has d keep_set || has d s.ordered)) [
    | inl done ↦ rw done tt
    | inr more ↦ elim (Bool-cases (s.visiting d)) [
      | inl loop ↦ absurd (not_below (rank d) (a d loop))
      | inr new ↦
          rw (more, new)
            (let step = order_deletion keep_set parents find fuel in
              let post = order_deletion-Post keep_set parents find children known fuel in
              IsOk-leave d _ (
                each_parent-IsOk fuel step post (order_deletion-IsOk fuel) (parents d) _
                  (Ready-enter keep_set parents find children known fuel d s (parents d) new r refl)
                  (λ p h. Above-enter d p s h a)))
    ]
  ]
    where
      not_below : (n : ℕ) → n < n → ⊥
      not_below n h = omega arith
