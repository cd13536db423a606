-- ===== src/Registry/Names/References.antt =====
-- References to images of the local registry (internal/application/registry.go).
use redlaunch.Base.{
  ℕ, ◌==◌, ==_iff, ◌↔◌, Bool-cases, ◌≡◌, refl, ap, ◌∙◌, arith, true, [], ◌∷◌, ◌++◌, Option, none,
  some, Text, codes, cut, cut_prefix, cut_prefix-append, cut_prefix_sound, trim_space, Option-cases,
  inl, inr, Lacks,
}
use redlaunch.Registry.Names.{
  validate_registry_repository, validate_registry_tag, local_registry_address, is_ok,
  checked_reference, parse_deployed_registry_reference,
}

cut-append : (sep : ℕ) (p rest : Text) → Lacks sep p → cut sep (p ++ sep ∷ rest) ≡ some (p, rest)
unfolding cut
cut-append sep [] rest h = ground arith
cut-append sep (c ∷ p) rest (n, h) = ground (arith, cut-append sep p rest h)

cut_sound : (sep : ℕ) (s a b : Text) → cut sep s ≡ some (a, b) → (s ≡ a ++ sep ∷ b) × Lacks sep a
unfolding cut
cut_sound sep [] a b h = ground arith
cut_sound sep (c ∷ s) a b h = elim (Bool-cases (c == sep)) [
  | inl hit ↦
      let first : a ≡ [] = ground arith in
      let rest : b ≡ s = ground arith in
      let equal = (==_iff c sep).0 hit in rw first (rw (rest, equal) refl, tt)
  | inr miss ↦ elim (Option-cases (cut sep s)) [
    | inl absent ↦ ground arith
    | inr ((before, after), found) ↦
        let head : a ≡ c ∷ before = ground arith in
        let rest : b ≡ after = ground arith in
        let (whole, lacks) = cut_sound sep s before after found in
        rw head (rw (rest, whole) refl, (λ e. ground (arith, ==_iff c sep), lacks))
  ]
]

-- `localhost:5000/repository:tag`
abbrev pub reference_of : Text → Text → Text
reference_of repository tag = (local_registry_address ++ codes "/") ++ (repository ++ b':' ∷ tag)

checked_reference_sound :
    (o : Option (Text × Text)) (repository tag : Text)
    → checked_reference o ≡ some (repository, tag)
    → (o ≡ some (repository, tag))
      × (is_ok (validate_registry_repository repository) ≡ true)
      × (is_ok (validate_registry_tag tag) ≡ true)
unfolding checked_reference
checked_reference_sound none repository tag h = ground arith
checked_reference_sound (some (r, t)) repository tag h = ground arith

accepted_reference :
    (image_name repository tag : Text)
    → parse_deployed_registry_reference image_name ≡ some (repository, tag)
    → (trim_space image_name ≡ reference_of repository tag)
      × Lacks b':' repository
      × (is_ok (validate_registry_repository repository) ≡ true)
      × (is_ok (validate_registry_tag tag) ≡ true)
unfolding parse_deployed_registry_reference
accepted_reference image_name repository tag h =
    let prefix = local_registry_address ++ codes "/" in
    elim (Option-cases (cut_prefix prefix (trim_space image_name))) [
      | inl absent ↦ ground arith
      | inr (reference, found) ↦
          let read : checked_reference (cut b':' reference) ≡ some (repository, tag) =
            ground arith in
          let (parts, valid, valid_tag) =
            checked_reference_sound (cut b':' reference) repository tag read in
          let (whole, lacks) = cut_sound b':' reference repository tag parts in
          (
            cut_prefix_sound prefix (trim_space image_name) reference found
                ∙ ap (λ r. prefix ++ r) whole,
            lacks,
            valid,
            valid_tag,
          )
    ]

-- The image of a service is read as a repository and a tag of the local registry exactly when, without
-- the space around it, it is the registry's address, a slash, the repository, a colon and the tag, the repository
-- and the tag pass their own checks, and the repository has no colon.
pub parse_deployed_registry_reference_iff :
    (image_name repository tag : Text)
    → (parse_deployed_registry_reference image_name ≡ some (repository, tag)) ↔ (
        (trim_space image_name ≡ reference_of repository tag)
        × Lacks b':' repository
        × (is_ok (validate_registry_repository repository) ≡ true)
        × (is_ok (validate_registry_tag tag) ≡ true))
unfolding parse_deployed_registry_reference
parse_deployed_registry_reference_iff image_name repository tag = (
  λ h. accepted_reference image_name repository tag h,
  λ (whole, lacks, valid, valid_tag).
      rw
        (
          whole,
          cut_prefix-append (local_registry_address ++ codes "/") (repository ++ b':' ∷ tag),
          cut-append b':' repository tag lacks,
        )
        (ground arith),
)
