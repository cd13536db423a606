-- ===== src/Registry/Retention/Sweep/Maps.antt =====
-- What the maps `parents`, `byDigest` and `children` hold.
use redlaunch.Base.{
  ◌≡◌, ◌≢◌, Option, refl, sym, ◌∙◌, Bool, true, false, ◌⊎◌, inl, inr, List, [], ◌∷◌, ◌++◌, none,
  some, Text, has, ◌||◌, ◌&&◌, arith, text_eq, text_eq_iff, has-cons_self, has-append, Option-cases,
}
use redlaunch.Base.Assoc.{Table}
use redlaunch.Registry.Types.{Version}
use redlaunch.Registry.Retention.Select.{digests}
use redlaunch.Registry.Retention.Graph.{references_of, children_of}
use redlaunch.Registry.Retention.Sweep.{
  parents_of, by_digest, parents_loop, add_parents, by_digest_loop, update,
}

-- some version with digest `p` lists `c` among its children
abbrev pub refers : Table (List Text) → Text → Text → List Version → Bool
refers references p c [] = false
refers references p c (v ∷ vs) =
    (text_eq v.digest p && has c (references_of references v.digest)) || refers references p c vs

add_parents-has :
    (digest : Text) (cs : List Text) (m : Text → List Text) (p c : Text)
    → has p (add_parents digest cs m c) ≡ (has p (m c) || (text_eq digest p && has c cs))
unfolding add_parents has
add_parents-has digest [] m p c = ground arith
add_parents-has digest (k ∷ cs) m p c = ground (
  arith,
  add_parents-has digest cs (update m k (m k ++ digest ∷ [])) p c,
  has-append p (m k) (digest ∷ []),
  text_eq_iff k c,
)

parents_loop-has :
    (references : Table (List Text)) (vs : List Version) (m : Text → List Text) (p c : Text)
    → has p (parents_loop references vs m c) ≡ (has p (m c) || refers references p c vs)
unfolding parents_loop
parents_loop-has references [] m p c = ground arith
parents_loop-has references (v ∷ vs) m p c = ground (
  arith,
  parents_loop-has references vs (add_parents v.digest (references_of references v.digest) m) p c,
  add_parents-has v.digest (references_of references v.digest) m p c,
)

pub parents_of-has :
    (references : Table (List Text)) (vs : List Version) (p c : Text)
    → has p (parents_of references vs c) ≡ refers references p c vs
unfolding parents_of has
parents_of-has references vs p c = parents_loop-has references vs (λ _. []) p c

-- a parent is the digest of a version, and has the child among its references
pub refers_sound :
    (references : Table (List Text)) (vs : List Version) (p c : Text)
    → refers references p c vs ≡ true
    → (has p (digests vs) ≡ true) × (has c (references_of references p) ≡ true)
unfolding has
refers_sound references [] p c h = cc
refers_sound references (v ∷ vs) p c h =
    ground (arith, refers_sound references vs p c, text_eq_iff v.digest p)

pub refers_complete :
    (references : Table (List Text)) (vs : List Version) (p c : Text)
    → has p (digests vs) ≡ true
    → has c (references_of references p) ≡ true
    → refers references p c vs ≡ true
unfolding has
refers_complete references [] p c h k = cc
refers_complete references (v ∷ vs) p c h k =
    ground (arith, refers_complete references vs p c, text_eq_iff v.digest p)

lookup-children :
    (references : Table (List Text)) (d c : Text)
    → has c (references_of references d) ≡ true
    → has c (children_of references) ≡ true
unfolding references_of children_of has
lookup-children [] d c h = cc
lookup-children ((k, refs) ∷ references) d c h =
    ground (arith, lookup-children references d c, has-append c refs (children_of references))

has-of-ne-nil : (l : List Text) → l ≢ [] → (p : Text) × (has p l ≡ true)
has-of-ne-nil [] h = absurd (h refl)
has-of-ne-nil (p ∷ l) h = (p, has-cons_self p l)

pub parents_known :
    (references : Table (List Text)) (vs : List Version) (d : Text)
    → parents_of references vs d ≢ []
    → has d (children_of references) ≡ true
parents_known references vs d h =
    let (p, k) = has-of-ne-nil (parents_of references vs d) h in
    lookup-children references p d
      (refers_sound references vs p d (sym (parents_of-has references vs p d) ∙ k)).1

-- `byDigest` finds a version of the digest that it is asked for
abbrev pub IsFound : Text → Option Version → Type 0
IsFound d none = Unit
IsFound d (some v) = v.digest ≡ d

by_digest_loop-IsFound :
    (vs : List Version) (m : Text → Option Version) (d : Text)
    → IsFound d (m d)
    → IsFound d (by_digest_loop vs m d)
unfolding by_digest_loop
by_digest_loop-IsFound [] m d h = h
by_digest_loop-IsFound (v ∷ vs) m d h =
    by_digest_loop-IsFound vs (update m v.digest (some v)) d
      (ground (arith, text_eq_iff v.digest d))

by_digest_loop-ne-none :
    (vs : List Version) (m : Text → Option Version) (d : Text)
    → (m d ≢ none) ⊎ (has d (digests vs) ≡ true)
    → by_digest_loop vs m d ≢ none
unfolding by_digest_loop has
by_digest_loop-ne-none [] m d h = ground arith
by_digest_loop-ne-none (v ∷ vs) m d h =
    by_digest_loop-ne-none vs (update m v.digest (some v)) d (ground arith)

pub by_digest-found :
    (vs : List Version) (d : Text)
    → has d (digests vs) ≡ true
    → (v : Version) × (by_digest vs d ≡ some v) × (v.digest ≡ d)
unfolding by_digest
by_digest-found vs d h = elim (Option-cases (by_digest_loop vs (λ _. none) d)) [
  | inl e ↦ absurd (by_digest_loop-ne-none vs (λ _. none) d (inr h) e)
  | inr (v, e) ↦ (v, e, rw e at (by_digest_loop-IsFound vs (λ _. none) d tt))
]

pub by_digest-IsFound : (vs : List Version) (d : Text) → IsFound d (by_digest vs d)
unfolding by_digest
by_digest-IsFound vs d = by_digest_loop-IsFound vs (λ _. none) d tt

by_digest_loop-known :
    (vs : List Version) (m : Text → Option Version) (d : Text)
    → by_digest_loop vs m d ≢ none
    → (m d ≢ none) ⊎ (has d (digests vs) ≡ true)
unfolding by_digest_loop has
by_digest_loop-known [] m d h = inl h
by_digest_loop-known (v ∷ vs) m d h =
    ground (arith, by_digest_loop-known vs (update m v.digest (some v)) d h)

pub by_digest-known :
    (vs : List Version) (d : Text) → by_digest vs d ≢ none → has d (digests vs) ≡ true
unfolding by_digest
by_digest-known vs d h = elim (by_digest_loop-known vs (λ _. none) d h) [
  | inl e ↦ absurd (e refl)
  | inr e ↦ e
]
