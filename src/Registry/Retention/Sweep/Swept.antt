-- ===== src/Registry/Retention/Sweep/Swept.antt =====
-- What one call of `orderDeletion` does: it restores `visiting`, and orders its digest or finds a
-- cycle.
use redlaunch.Base.{
  ℕ, zero, suc, ◌+◌, ◌<◌, ◌≤◌, ◌≡◌, ◌∙◌, ◌≢◌, Option, refl, Bool, true, false, ◌⊎◌, inl, inr, List,
  [], ◌∷◌, Text, has, length, ◌||◌, if◌then◌else◌, arith, text_eq_iff, has-cons_cases, has-cons,
  has-cons_self, Bool-cases, Result, ok, err, ◌>>=◌,
}
use redlaunch.Registry.Types.{Version, Error, graph_cycle}
use redlaunch.Registry.Retention.Sweep.{Sweep, each_parent, order_deletion, enter, leave, update}

-- digests of the list that are not being visited
abbrev pub unmarked : (Text → Bool) → List Text → ℕ
unmarked visiting [] = 0
unmarked visiting (k ∷ ks) = (if visiting k then 0 else 1) + unmarked visiting ks

pub unmarked-le : (m : Text → Bool) (ks : List Text) → unmarked m ks ≤ length ks
unmarked-le m [] = omega arith
unmarked-le m (k ∷ ks) = ground (arith, unmarked-le m ks)

pub unmarked_same :
    (m n : Text → Bool) (ks : List Text) → ((k : Text) → m k ≡ n k) → unmarked m ks ≡ unmarked n ks
unmarked_same m n [] e = refl
unmarked_same m n (k ∷ ks) e = rw (e k, unmarked_same m n ks e)

unmarked-le-update :
    (m : Text → Bool) (d : Text) (ks : List Text) → unmarked (update m d true) ks ≤ unmarked m ks
unmarked-le-update m d [] = omega arith
unmarked-le-update m d (k ∷ ks) = ground (arith, unmarked-le-update m d ks)

unmarked-update :
    (m : Text → Bool) (d : Text) (ks : List Text)
    → m d ≡ false
    → has d ks ≡ true
    → unmarked (update m d true) ks < unmarked m ks
unfolding has
unmarked-update m d [] h k = cc
unmarked-update m d (k ∷ ks) h e =
    ground
      (arith, text_eq_iff k d, text_eq_iff d k, unmarked-update m d ks h, unmarked-le-update m d ks)

module _ (keep_set : List Text) (parents : Text → List Text) (find : Text → Option Version) where
  -- `ds` are kept or ordered, and nothing is being visited that was not
  pub record Swept (ds : List Text) (s s' : Sweep) : Type 0 where
    pub same_visiting : (d : Text) → s'.visiting d ≡ s.visiting d
    pub grows : (d : Text) → has d s.ordered ≡ true → has d s'.ordered ≡ true
    pub hits : (d : Text) → has d ds ≡ true → (has d keep_set ≡ true) ⊎ (has d s'.ordered ≡ true)
    pub skips : (d : Text) → s.visiting d ≡ true → has d s'.ordered ≡ true → has d s.ordered ≡ true

  abbrev pub Post : List Text → Sweep → Result Error Sweep → Type 0
  Post ds s (ok s') = Swept ds s s'
  Post ds s (err e) = e ≡ graph_cycle

  Swept-nil : (s : Sweep) → Swept [] s s
  unfolding has
  Swept-nil s = record {
    same_visiting = λ d. refl;
    grows = λ d h. h;
    hits = λ d h. cc;
    skips = λ d v h. h;
  }

  Swept-done :
      (d : Text) (s : Sweep) → (has d keep_set || has d s.ordered) ≡ true → Swept (d ∷ []) s s
  unfolding has
  Swept-done d s e = record {
    same_visiting = λ d. refl;
    grows = λ d h. h;
    hits = λ x h. ground (arith, text_eq_iff d x);
    skips = λ d v h. h;
  }

  Swept-cons :
      (d : Text) (ds : List Text) (s s' s'' : Sweep)
      → Swept (d ∷ []) s s'
      → Swept ds s' s''
      → Swept (d ∷ ds) s s''
  Swept-cons d ds s s' s'' a b = record {
    same_visiting = λ x. cc (a.same_visiting x, b.same_visiting x);
    grows = λ x h. b.grows x (a.grows x h);
    hits = λ x h. elim (has-cons_cases x d ds h) [
      | inr e ↦ b.hits x e
      | inl e ↦ elim (a.hits x (rw e (has-cons_self x []))) [
        | inl k ↦ inl k
        | inr k ↦ inr (b.grows x k)
      ]
    ];
    skips = λ x v h. a.skips x v (b.skips x (a.same_visiting x ∙ v) h);
  }

  Swept-leave :
      (d : Text) (ps : List Text) (s s' : Sweep)
      → s.visiting d ≡ false
      → Swept ps (enter keep_set parents find d s) s'
      → Swept (d ∷ []) s (leave keep_set parents find d s')
  unfolding enter leave has
  Swept-leave d ps s s' v b = record {
    same_visiting = λ x. ground (arith, text_eq_iff d x, b.same_visiting x);
    grows = λ x h. has-cons x d s'.ordered (b.grows x h);
    hits = λ x h. inr (ground (arith, text_eq_iff d x));
    skips = λ x t h. ground (arith, text_eq_iff d x, b.skips x);
  }

  Post-cons :
      (step : Text → Sweep → Result Error Sweep) (d : Text) (ds : List Text) (s : Sweep)
      (r : Result Error Sweep)
      → Post (d ∷ []) s r
      → ((s' : Sweep) → Swept (d ∷ []) s s' → Post ds s' (each_parent step ds s'))
      → Post (d ∷ ds) s (r >>= λ s'. each_parent step ds s')
  Post-cons step d ds s (err e) h k = h
  Post-cons step d ds s (ok s') h k = rest (each_parent step ds s') (k s' h)
    where
      rest : (r : Result Error Sweep) → Post ds s' r → Post (d ∷ ds) s r
      rest (ok s'') b = Swept-cons d ds s s' s'' h b
      rest (err e) b = b

  Post-leave :
      (d : Text) (ps : List Text) (s : Sweep) (r : Result Error Sweep)
      → s.visiting d ≡ false
      → Post ps (enter keep_set parents find d s) r
      → Post (d ∷ []) s (r >>= λ s'. ok (leave keep_set parents find d s'))
  Post-leave d ps s (ok s') v h = Swept-leave d ps s s' v h
  Post-leave d ps s (err e) v h = h

module _ (keep_set : List Text) (parents : Text → List Text) (find : Text → Option Version)
    (children : List Text) (known : (d : Text) → parents d ≢ [] → has d children ≡ true) where
  abbrev pub Ready : ℕ → List Text → Sweep → Type 0
  Ready fuel [] s = Unit
  Ready fuel (d ∷ ds) s = unmarked s.visiting children < fuel

  pub Ready-fuel :
      (fuel : ℕ) (ds : List Text) (s : Sweep)
      → unmarked s.visiting children < fuel
      → Ready fuel ds s
  Ready-fuel fuel [] s h = tt
  Ready-fuel fuel (d ∷ ds) s h = h

  pub each_parent-Post :
      (fuel : ℕ) (step : Text → Sweep → Result Error Sweep)
      → ((d : Text) (s : Sweep)
          → unmarked s.visiting children < fuel
          → Post keep_set parents find (d ∷ []) s (step d s))
      → (ds : List Text) (s : Sweep) → Ready fuel ds s
      → Post keep_set parents find ds s (each_parent step ds s)
  unfolding each_parent
  each_parent-Post fuel step one [] s r = Swept-nil keep_set parents find s
  each_parent-Post fuel step one (d ∷ ds) s r =
      Post-cons keep_set parents find step d ds s (step d s) (one d s r) λ s' w.
        each_parent-Post fuel step one ds s' (
          Ready-fuel fuel ds s'
            (rw (unmarked_same s'.visiting s.visiting children w.same_visiting) r))

  pub Ready-enter :
      (fuel : ℕ) (d : Text) (s : Sweep) (ps : List Text)
      → s.visiting d ≡ false
      → unmarked s.visiting children < suc fuel
      → parents d ≡ ps
      → Ready fuel ps (enter keep_set parents find d s)
  unfolding enter
  Ready-enter fuel d s [] v r e = tt
  Ready-enter fuel d s (p ∷ ps) v r e =
      omega (arith, unmarked-update s.visiting d children v (known d (λ i. cc)))

  -- with enough fuel a call does its work or reports a cycle
  pub order_deletion-Post :
      (fuel : ℕ) (d : Text) (s : Sweep)
      → unmarked s.visiting children < fuel
      → Post keep_set parents find (d ∷ []) s (order_deletion keep_set parents find fuel d s)
  unfolding order_deletion
  order_deletion-Post zero d s r = absurd (omega arith)
  order_deletion-Post (suc fuel) d s r = elim (Bool-cases (has d keep_set || has d s.ordered)) [
    | inl done ↦ rw done (Swept-done keep_set parents find d s done)
    | inr more ↦ elim (Bool-cases (s.visiting d)) [
      | inl loop ↦ rw (more, loop) refl
      | inr new ↦
          rw (more, new)
            (Post-leave keep_set parents find d (parents d) s _ new (
              each_parent-Post fuel (order_deletion keep_set parents find fuel)
                (order_deletion-Post fuel) (parents d) (enter keep_set parents find d s)
                (Ready-enter fuel d s (parents d) new r refl)))
    ]
  ]
