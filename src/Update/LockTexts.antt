-- ===== src/Update/LockTexts.antt =====
-- The lock file is read back as it was written.
use redlaunch.Base.{
  ℕ, ◌≤◌, ◌≡◌, ◌≢◌, refl, sym, ap, ◌∙◌, arith, inl, inr, true, false, ltb, Text, [], ◌∷◌, ◌++◌,
  text_eq, text_eq_iff, len, trim_space, trim_space-NoSpace, NoSpace, Lacks, is_space, split,
  split-append, split-Lacks, every_char, has, has-cons_cases, some, ok, All, All-map, All-append,
  subst,
}
use redlaunch.Base.Trimming.{len-append, Solid, Solid-append, trim_space-last}
use mathlib.Core.List.{reverse, reverse-append, reverse-cons, reverse-reverse}
use redlaunch.Update.Validation.{valid_update_operation_id, id_character, manager, helper}
use redlaunch.Update.Validity.{valid_update_operation_id-IsOperationId}
use redlaunch.Update.Files.{absent, regular}
use redlaunch.Update.Lock.{
  Creation, created, lock_created, lock_text, acquire, create_lock, read_lock, lock_lines,
  owner_line, valid_update_lock_owner, newline, prune, management_access,
}

newline_space : is_space newline ≡ true
unfolding is_space
newline_space = refl

-- a word: something that stands on one line and has no space
abbrev Visible : ℕ → Type 0
Visible c = (is_space c ≡ false) × (c ≢ newline)

record IsWord (s : Text) : Type 0 where
  given : s ≢ []
  visible : All Visible s

All-reverse : (s : Text) → All Visible s → All Visible (reverse s)
All-reverse [] h = tt
All-reverse (c ∷ s) h =
    rw reverse-cons (All-append Visible (reverse s) (c ∷ []) (All-reverse s h.1) (h.0, tt))

IsWord-Solid : (s : Text) → IsWord s → Solid s
IsWord-Solid [] w = absurd (w.given refl)
IsWord-Solid (c ∷ s) w = w.visible.0.0

IsWord-reverse : (s : Text) → IsWord s → IsWord (reverse s)
IsWord-reverse s w = record {
  given = λ e. w.given (sym (reverse-reverse s) ∙ ap reverse e);
  visible = All-reverse s w.visible;
}

IsWord-NoSpace : (s : Text) → IsWord s → NoSpace s
IsWord-NoSpace s w = All-map (λ c h. h.0) s w.visible

IsWord-Lacks : (s : Text) → IsWord s → Lacks newline s
IsWord-Lacks s w = All-map (λ c h. h.1) s w.visible

-- the lines of a lock file
module _ (id owner : Text) (i : IsWord id) (o : IsWord owner) where
  trimmed : trim_space (id ++ newline ∷ owner ++ newline ∷ []) ≡ id ++ newline ∷ owner
  trimmed =
      trim_space-last (id ++ newline ∷ owner) newline
        (Solid-append id (newline ∷ owner) (IsWord-Solid id i))
        (rw (reverse-append, reverse-cons)
          (Solid-append (reverse owner ++ newline ∷ []) (reverse id) (
            Solid-append (reverse owner) (newline ∷ [])
              (IsWord-Solid (reverse owner) (IsWord-reverse owner o)))))
        newline_space

  lines : split newline (trim_space (id ++ newline ∷ owner ++ newline ∷ [])) ≡ id ∷ owner ∷ []
  lines =
      ap (split newline) trimmed
      ∙ split-append newline id owner (IsWord-Lacks id i)
      ∙ ap (λ l. id ∷ l) (split-Lacks newline owner (IsWord-Lacks owner o))

id_character-Visible : (c : ℕ) → id_character c ≡ true → Visible c
unfolding id_character is_space
id_character-Visible c h = (ground arith, λ e. ground arith)

every_character-Visible : (s : Text) → every_char id_character s ≡ true → All Visible s
unfolding every_char
every_character-Visible [] h = tt
every_character-Visible (c ∷ s) h =
    (id_character-Visible c (ground arith), every_character-Visible s (ground arith))

id-IsWord : (id : Text) → valid_update_operation_id id ≡ true → IsWord id
unfolding valid_update_operation_id
id-IsWord id h = record {
  given = (valid_update_operation_id-IsOperationId id h).given;
  visible = every_character-Visible id (ground arith);
}

not_has_nil : (k : Text) → has k [] ≢ true
unfolding has
not_has_nil k h = ground arith

-- a statement on the four owners of a lock
owner_cases {ℓ} :
    (P : Text → Type ℓ) (owner : Text)
    → valid_update_lock_owner owner ≡ true
    → P manager
    → P helper
    → P prune
    → P management_access
    → P owner
unfolding valid_update_lock_owner
owner_cases P owner h m e p a =
    elim (has-cons_cases owner manager (helper ∷ prune ∷ management_access ∷ []) h) [
      | inl e' ↦ subst P e' m
      | inr t ↦ elim (has-cons_cases owner helper (prune ∷ management_access ∷ []) t) [
        | inl e' ↦ subst P e' e
        | inr u ↦ elim (has-cons_cases owner prune (management_access ∷ []) u) [
          | inl e' ↦ subst P e' p
          | inr v ↦ elim (has-cons_cases owner management_access [] v) [
            | inl e' ↦ subst P e' a
            | inr none_left ↦ absurd (not_has_nil owner none_left)
          ]
        ]
      ]
    ]

visible_by_test : (s : Text) → every_char id_character s ≡ true → s ≢ [] → IsWord s
visible_by_test s h e = record { given = e; visible = every_character-Visible s h }

owner-IsWord : (owner : Text) → valid_update_lock_owner owner ≡ true → IsWord owner
unfolding every_char id_character
owner-IsWord owner h =
    owner_cases IsWord owner h (visible_by_test manager refl (λ e. ground arith))
      (visible_by_test helper refl (λ e. ground arith))
      (visible_by_test prune refl (λ e. ground arith))
      (visible_by_test management_access refl (λ e. ground arith))

owner_short : (owner : Text) → valid_update_lock_owner owner ≡ true → len owner ≤ 17
unfolding len
owner_short owner h =
    owner_cases (λ o. len o ≤ 17) owner h (ground arith) (ground arith) (ground arith)
      (ground arith)

lines_read :
    (id owner : Text)
    → valid_update_operation_id id ≡ true
    → valid_update_lock_owner owner ≡ true
    → lock_lines (id ∷ owner ∷ []) ≡ ok (some (id, owner))
unfolding lock_lines owner_line
lines_read id owner v w =
    rw
      (
        trim_space-NoSpace id (IsWord-NoSpace id (id-IsWord id v)),
        trim_space-NoSpace owner (IsWord-NoSpace owner (owner-IsWord owner w)),
        v,
        w,
      )
      refl

text_fits :
    (id owner : Text)
    → valid_update_operation_id id ≡ true
    → valid_update_lock_owner owner ≡ true
    → len (id ++ newline ∷ owner ++ newline ∷ []) ≤ 512
unfolding len
text_fits id owner v w = ground (
  arith,
  len-append (id ++ newline ∷ owner) (newline ∷ []),
  len-append id (newline ∷ owner),
  (valid_update_operation_id-IsOperationId id v).short,
  owner_short owner w,
)

acquire-eq :
    (disk : Creation) (id owner : Text)
    → valid_update_operation_id id ≡ true
    → valid_update_lock_owner owner ≡ true
    → acquire disk id owner absent ≡ lock_created disk (lock_text id owner)
unfolding acquire create_lock
acquire-eq disk id owner v w =
    rw (trim_space-NoSpace id (IsWord-NoSpace id (id-IsWord id v)), not_blank, w) refl
  where
    not_blank : text_eq id [] ≡ false
    not_blank = ground (arith, text_eq_iff id [], (id-IsWord id v).given)

read_lock-text :
    (id owner : Text)
    → valid_update_operation_id id ≡ true
    → valid_update_lock_owner owner ≡ true
    → read_lock (regular (lock_text id owner)) ≡ ok (some (id, owner))
unfolding read_lock
read_lock-text id owner v w =
    rw (not_large, lines id owner (id-IsWord id v) (owner-IsWord owner w), lines_read id owner v w)
      refl
  where
    not_large : ltb 512 (len (id ++ newline ∷ owner ++ newline ∷ [])) ≡ false
    not_large = ground (arith, text_fits id owner v w)

-- The lock that acquire creates with a valid operation ID for one of the four owners, where no lock
-- stands, is read back as that operation and that owner.
pub read_lock-acquire :
    (id owner : Text)
    → valid_update_operation_id id ≡ true
    → valid_update_lock_owner owner ≡ true
    → ((acquire created id owner absent).0 ≡ ok tt)
      × (read_lock (acquire created id owner absent).1 ≡ ok (some (id, owner)))
read_lock-acquire id owner v w =
    rw (acquire-eq created id owner v w) (refl, read_lock-text id owner v w)
