-- ===== src/Registry/Retention/Graph/Closed.antt =====
-- The retained set is the set of digests that can be reached from the policy's choice.
use redlaunch.Base.{
  ℕ, zero, suc, ◌+◌, ◌<◌, ◌≤◌, ◌≡◌, ◌≢◌, Option, refl, true, false, ◌⊎◌, inl, inr, List, [], ◌∷◌,
  none, some, Text, has, length, if◌then◌else◌, arith, text_eq_iff, has-cons_cases, has-cons,
  has-cons_self, Bool-cases, ◌↔◌,
}
use redlaunch.Base.Assoc.{Table, lookup}
use redlaunch.Registry.Retention.Graph.{
  Walk, references_of, each, retain_children, retain_all, or_empty,
}

-- digests below a start along `references`
pub data Reach (references : Table (List Text)) (start : List Text) : Text → Type 0 where
  root : {d : Text} → has d start ≡ true → Reach references start d
  child :
      {d c : Text}
      → Reach references start d
      → has c (references_of references d) ≡ true
      → Reach references start c

-- keys that are not visited
abbrev pub fresh : Table (List Text) → List Text → ℕ
fresh [] visited = 0
fresh ((k, v) ∷ references) visited = (if has k visited then 0 else 1) + fresh references visited

pub fresh-le :
    (references : Table (List Text)) (visited : List Text)
    → fresh references visited ≤ length references
fresh-le [] visited = omega arith
fresh-le ((k, v) ∷ references) visited = ground (arith, fresh-le references visited)

-- `b` holds all that `a` holds
abbrev pub Sub : List Text → List Text → Type 0
Sub a b = (d : Text) → has d a ≡ true → has d b ≡ true

pub fresh_mono :
    (references : Table (List Text)) (a b : List Text)
    → Sub a b
    → fresh references b ≤ fresh references a
fresh_mono [] a b s = omega arith
fresh_mono ((k, v) ∷ references) a b s = ground (arith, fresh_mono references a b s, s k)

fresh-visit :
    (references : Table (List Text)) (visited : List Text) (d : Text)
    → has d visited ≡ false
    → lookup d references ≢ none
    → fresh references (d ∷ visited) < fresh references visited
unfolding lookup has
fresh-visit [] visited d h e = absurd (e refl)
fresh-visit ((k, v) ∷ references) visited d h e = ground (
  arith,
  text_eq_iff k d,
  text_eq_iff d k,
  fresh-visit references visited d h,
  fresh_mono references visited (d ∷ visited) (λ x y. has-cons x d visited y),
)

module _ (references : Table (List Text)) where
  -- what a walk from the digests `ds` does
  pub record Walked (ds : List Text) (w w' : Walk) : Type 0 where
    pub grows : Sub w.visited w'.visited
    keeps : Sub w.keep_set w'.keep_set
    hits : Sub ds w'.visited
    closes :
        (d : Text)
        → has d w'.visited ≡ true
        → (has d w.visited ≡ true) ⊎ Sub (references_of references d) w'.visited
    retains :
        (d : Text) → has d w'.visited ≡ true → (has d w.visited ≡ true) ⊎ (has d w'.keep_set ≡ true)
    only :
        (d : Text)
        → has d w'.keep_set ≡ true
        → (has d w.keep_set ≡ true) ⊎ (has d w'.visited ≡ true)

  Walked-nil : (w : Walk) → Walked [] w w
  unfolding has
  Walked-nil w = record {
    grows = λ d h. h;
    keeps = λ d h. h;
    hits = λ d h. cc;
    closes = λ d h. inl h;
    retains = λ d h. inl h;
    only = λ d h. inl h;
  }

  Walked-seen : (d : Text) (w : Walk) → has d w.visited ≡ true → Walked (d ∷ []) w w
  unfolding has
  Walked-seen d w s = record {
    grows = λ d h. h;
    keeps = λ d h. h;
    hits = λ x h. ground (arith, text_eq_iff d x);
    closes = λ d h. inl h;
    retains = λ d h. inl h;
    only = λ d h. inl h;
  }

  Walked-cons :
      (d : Text) (ds : List Text) (w w' w'' : Walk)
      → Walked (d ∷ []) w w'
      → Walked ds w' w''
      → Walked (d ∷ ds) w w''
  unfolding has
  Walked-cons d ds w w' w'' a b = record {
    grows = λ x h. b.grows x (a.grows x h);
    keeps = λ x h. b.keeps x (a.keeps x h);
    hits = λ x h. elim (has-cons_cases x d ds h) [
      | inl e ↦ b.grows x (a.hits x (ground (arith, text_eq_iff d x)))
      | inr e ↦ b.hits x e
    ];
    closes = λ x h. elim (b.closes x h) [
      | inr c ↦ inr c
      | inl e ↦ elim (a.closes x e) [ inl e' ↦ inl e' | inr c ↦ inr (λ y k. b.grows y (c y k)) ]
    ];
    retains = λ x h. elim (b.retains x h) [
      | inr c ↦ inr c
      | inl e ↦ elim (a.retains x e) [ inl e' ↦ inl e' | inr c ↦ inr (b.keeps x c) ]
    ];
    only = λ x h. elim (b.only x h) [
      | inr c ↦ inr c
      | inl e ↦ elim (a.only x e) [ inl e' ↦ inl e' | inr c ↦ inr (b.grows x c) ]
    ];
  }

  abbrev pub enter : Text → Walk → Walk
  enter d w = record { visited = d ∷ w.visited; keep_set = d ∷ w.keep_set }

  Walked-enter :
      (d : Text) (w w' : Walk)
      → Walked (references_of references d) (enter d w) w'
      → Walked (d ∷ []) w w'
  unfolding has
  Walked-enter d w w' b = record {
    grows = λ x h. b.grows x (has-cons x d w.visited h);
    keeps = λ x h. b.keeps x (has-cons x d w.keep_set h);
    hits = λ x h. b.grows x (ground (arith, text_eq_iff d x));
    closes = λ x h. elim (b.closes x h) [
      | inr c ↦ inr c
      | inl e ↦ elim (has-cons_cases x d w.visited e) [
        | inl i ↦ inr (λ y k. b.hits y (rw i k))
        | inr i ↦ inl i
      ]
    ];
    retains = λ x h. elim (b.retains x h) [
      | inr c ↦ inr c
      | inl e ↦ elim (has-cons_cases x d w.visited e) [
        | inl i ↦ inr (b.keeps x (rw i (has-cons_self x w.keep_set)))
        | inr i ↦ inl i
      ]
    ];
    only = λ x h. elim (b.only x h) [
      | inr c ↦ inr c
      | inl e ↦ elim (has-cons_cases x d w.keep_set e) [
        | inl i ↦ inr (b.grows x (rw i (has-cons_self x w.visited)))
        | inr i ↦ inl i
      ]
    ];
  }

  -- a walk over no digest needs no call
  abbrev pub Ready : ℕ → List Text → Walk → Type 0
  Ready fuel [] w = Unit
  Ready fuel (d ∷ ds) w = fresh references w.visited < fuel

  pub Ready-fuel :
      (fuel : ℕ) (ds : List Text) (w : Walk) → fresh references w.visited < fuel → Ready fuel ds w
  Ready-fuel fuel [] w h = tt
  Ready-fuel fuel (d ∷ ds) w h = h

  each-Walked :
      (fuel : ℕ) (step : Text → Walk → Walk)
      → ((d : Text) (w : Walk) → fresh references w.visited < fuel → Walked (d ∷ []) w (step d w))
      → (ds : List Text) (w : Walk) → Ready fuel ds w
      → Walked ds w (each step ds w)
  unfolding each
  each-Walked fuel step one [] w r = Walked-nil w
  each-Walked fuel step one (d ∷ ds) w r =
      let first = one d w r in
      Walked-cons d ds w (step d w) _ first (
        each-Walked fuel step one ds (step d w) (
          Ready-fuel fuel ds (step d w)
            (omega (arith, fresh_mono references w.visited (step d w).visited first.grows))))

  pub Ready-enter :
      (fuel : ℕ) (d : Text) (w : Walk)
      → has d w.visited ≡ false
      → fresh references w.visited < suc fuel
      → (o : Option (List Text)) → lookup d references ≡ o
      → Ready fuel (or_empty o) (enter d w)
  Ready-enter fuel d w h r none e = tt
  Ready-enter fuel d w h r (some refs) e =
      Ready-fuel fuel refs (enter d w)
        (omega (arith, fresh-visit references w.visited d h (λ i. cc)))

  pub retain_children-Walked :
      (fuel : ℕ) (d : Text) (w : Walk)
      → fresh references w.visited < fuel
      → Walked (d ∷ []) w (retain_children references fuel d w)
  unfolding retain_children
  retain_children-Walked zero d w r = absurd (omega arith)
  retain_children-Walked (suc fuel) d w r = elim (Bool-cases (has d w.visited)) [
    | inl seen ↦ rw seen (Walked-seen d w seen)
    | inr new ↦ rw new (
        Walked-enter d w _ (
          each-Walked fuel (retain_children references fuel) (retain_children-Walked fuel)
            (references_of references d) (enter d w)
            (unfold references_of in Ready-enter fuel d w new r (lookup d references) refl)))
  ]

  abbrev AllReach : List Text → List Text → Type 0
  AllReach start ds = (d : Text) → has d ds ≡ true → Reach references start d

  each-AllReach :
      (start : List Text) (step : Text → Walk → Walk)
      → ((d : Text) (w : Walk)
          → Reach references start d
          → AllReach start w.visited
          → AllReach start (step d w).visited)
      → (ds : List Text) (w : Walk) → AllReach start ds
      → AllReach start w.visited
      → AllReach start (each step ds w).visited
  unfolding each has
  each-AllReach start step one [] w r h = h
  each-AllReach start step one (d ∷ ds) w r h =
      each-AllReach start step one ds (step d w) (λ x k. r x (has-cons x d ds k))
        (one d w (r d (has-cons_self d ds)) h)

  retain_children-AllReach :
      (start : List Text) (fuel : ℕ) (d : Text) (w : Walk)
      → Reach references start d
      → AllReach start w.visited
      → AllReach start (retain_children references fuel d w).visited
  unfolding retain_children
  retain_children-AllReach start zero d w r h = h
  retain_children-AllReach start (suc fuel) d w r h = elim (Bool-cases (has d w.visited)) [
    | inl seen ↦ rw seen h
    | inr new ↦ rw new (
        each-AllReach start (retain_children references fuel) (retain_children-AllReach start fuel)
          (references_of references d) (enter d w) (λ c k. child r k)
          (λ x k. elim (has-cons_cases x d w.visited k) [ inl e ↦ rw (← e) r | inr e ↦ h x e ]))
  ]

  retain_all-Walked :
      (keep_set : List Text)
      → Walked keep_set
          (record { visited = []; keep_set = keep_set })
          (retain_all references keep_set)
  unfolding retain_all
  retain_all-Walked keep_set =
      each-Walked (suc (length references)) (retain_children references (suc (length references)))
        (retain_children-Walked (suc (length references))) keep_set _
        (Ready-fuel (suc (length references)) keep_set _ (omega (arith, fresh-le references [])))

  retained-visited :
      (keep_set : List Text) (d : Text)
      → has d (retain_all references keep_set).keep_set ≡ true
      → has d (retain_all references keep_set).visited ≡ true
  retained-visited keep_set d h = elim ((retain_all-Walked keep_set).only d h) [
    | inl e ↦ (retain_all-Walked keep_set).hits d e
    | inr e ↦ e
  ]

  visited-retained :
      (keep_set : List Text) (d : Text)
      → has d (retain_all references keep_set).visited ≡ true
      → has d (retain_all references keep_set).keep_set ≡ true
  unfolding has
  visited-retained keep_set d h = elim ((retain_all-Walked keep_set).retains d h) [
    | inl e ↦ cc
    | inr e ↦ e
  ]

  pub retain_all-start :
      (keep_set : List Text) (d : Text)
      → has d keep_set ≡ true
      → has d (retain_all references keep_set).keep_set ≡ true
  retain_all-start keep_set = (retain_all-Walked keep_set).keeps

  pub retain_all-closed :
      (keep_set : List Text) (d c : Text)
      → has d (retain_all references keep_set).keep_set ≡ true
      → has c (references_of references d) ≡ true
      → has c (retain_all references keep_set).keep_set ≡ true
  unfolding has
  retain_all-closed keep_set d c h k =
      elim ((retain_all-Walked keep_set).closes d (retained-visited keep_set d h)) [
        | inl e ↦ cc
        | inr e ↦ visited-retained keep_set c (e c k)
      ]

  Reach-retained :
      (keep_set : List Text) {d : Text}
      → Reach references keep_set d
      → has d (retain_all references keep_set).keep_set ≡ true
  Reach-retained keep_set (root h) = retain_all-start keep_set _ h
  Reach-retained keep_set (child {d = p} r k) =
      retain_all-closed keep_set p _ (Reach-retained keep_set r) k

  -- Keeping the manifests below the policy's choice keeps exactly the digests that can be reached
  -- from it along `references`, whatever cycles there are and in whatever order it is ranged over.
  pub retain_all_iff :
      (keep_set : List Text) (d : Text)
      → (has d (retain_all references keep_set).keep_set ≡ true) ↔ Reach references keep_set d
  unfolding retain_all has
  retain_all_iff keep_set d = (
    λ h.
        each-AllReach keep_set (retain_children references (suc (length references)))
          (retain_children-AllReach keep_set (suc (length references))) keep_set
          (record { visited = []; keep_set = keep_set }) (λ x k. root k) (λ x k. cc) d
          (retained-visited keep_set d h),
    Reach-retained keep_set,
  )
