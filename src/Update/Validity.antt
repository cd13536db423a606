-- ===== src/Update/Validity.antt =====
-- What holds of every state that is read from the file, whatever the file holds.
use redlaunch.Base.{
  ok_injective, some_injective, ℕ, ◌≤◌, ◌≡◌, ◌≢◌, refl, arith, ◌⊎◌, inl, inr, true, Text, [], ◌∷◌,
  text_eq_iff, len, every_char, has, Option, none, some, ok, >>=-eq-ok, All, Bool-cases, subst,
}
use redlaunch.Base.Number.{int_eq_iff, ℤ, pos, negsuc}
use redlaunch.Update.Phase
use redlaunch.Update.State.{UpdateState}
use redlaunch.Update.Validation.{
  revision_in_range, max_revision, id_character, valid_update_operation_id, manager, helper,
  operation_type, manager_phases, helper_phases, final_phases, known_phase, owns_phase,
  validate_update_state,
}
use redlaunch.Update.Files.{File, absent, regular, irregular}
use redlaunch.Update.Store.{Codec, read_state, decoded}

-- An ID can stand as one component of a path: it has no separator, and it is not `.` or `..`.
pub record IsOperationId (id : Text) : Type 0 where
  pub given : id ≢ []
  pub short : len id ≤ 128
  pub plain : All (λ c. (c ≢ b'/') × (c ≢ b'.') × (c ≢ b'\n')) id

-- An active phase belongs to the manager or to the helper, and a final one to either.
pub data IsPlaced (owner phase : Text) : Type 0 where
  by_manager : owner ≡ manager → has phase manager_phases ≡ true → IsPlaced owner phase
  by_helper : owner ≡ helper → has phase helper_phases ≡ true → IsPlaced owner phase
  final :
      (owner ≡ manager) ⊎ (owner ≡ helper) → has phase final_phases ≡ true → IsPlaced owner phase

pub record IsValid (s : UpdateState) : Type 0 where
  pub schema : s.schema ≡ pos 1
  pub revision : (n : ℕ) × (s.revision ≡ pos n) × (1 ≤ n) × (n ≤ max_revision)
  pub id : IsOperationId s.operation_id
  pub kind : s.kind ≡ operation_type
  pub placed : IsPlaced s.owner s.phase
  pub finished : s.phase ≡ Phase.complete → (s.target_image_id ≢ []) × (s.version ≢ [])

revision-eq :
    (r : ℤ) → revision_in_range r ≡ true → (n : ℕ) × (r ≡ pos n) × (1 ≤ n) × (n ≤ max_revision)
unfolding revision_in_range
revision-eq (pos n) h = (n, refl, ground arith, ground arith)
revision-eq (negsuc n) h = cc

id_character-plain : (c : ℕ) → id_character c ≡ true → (c ≢ b'/') × (c ≢ b'.') × (c ≢ b'\n')
unfolding id_character
id_character-plain c h = (λ e. ground arith, λ e. ground arith, λ e. ground arith)

every_character-plain :
    (s : Text)
    → every_char id_character s ≡ true
    → All (λ c. (c ≢ b'/') × (c ≢ b'.') × (c ≢ b'\n')) s
unfolding every_char
every_character-plain [] h = tt
every_character-plain (c ∷ s) h =
    (id_character-plain c (ground arith), every_character-plain s (ground arith))

pub valid_update_operation_id-IsOperationId :
    (s : Text) → valid_update_operation_id s ≡ true → IsOperationId s
unfolding valid_update_operation_id
valid_update_operation_id-IsOperationId s h = record {
  given = λ e. ground (arith, text_eq_iff s []);
  short = ground arith;
  plain = every_character-plain s (ground arith);
}

owns_phase-IsPlaced :
    (owner phase : Text)
    → (owner ≡ manager) ⊎ (owner ≡ helper)
    → known_phase phase ≡ true
    → owns_phase owner phase ≡ true
    → IsPlaced owner phase
unfolding known_phase owns_phase
owns_phase-IsPlaced owner phase who known owns = elim (Bool-cases (has phase manager_phases)) [
  | inl m ↦ by_manager (ground (arith, text_eq_iff owner manager)) m
  | inr m ↦ elim (Bool-cases (has phase helper_phases)) [
    | inl h ↦ by_helper (ground (arith, text_eq_iff owner helper)) h
    | inr h ↦ final who (ground arith)
  ]
]

validate_update_state-IsValid : (s : UpdateState) → validate_update_state s ≡ ok tt → IsValid s
unfolding validate_update_state
validate_update_state-IsValid s h = record {
  schema = int_eq_iff s.schema (pos 1) (ground arith);
  revision = revision-eq s.revision (ground arith);
  id = valid_update_operation_id-IsOperationId s.operation_id (ground arith);
  kind = ground (arith, text_eq_iff s.kind operation_type);
  placed =
      owns_phase-IsPlaced s.owner s.phase
        (ground (arith, text_eq_iff s.owner manager, text_eq_iff s.owner helper)) (ground arith)
        (ground arith);
  finished = λ e. (
    λ t. ground (arith, text_eq_iff s.phase Phase.complete, text_eq_iff s.target_image_id []),
    λ v. ground (arith, text_eq_iff s.phase Phase.complete, text_eq_iff s.version []),
  );
}

decoded-IsValid : (o : Option UpdateState) (s : UpdateState) → decoded o ≡ ok (some s) → IsValid s
unfolding decoded
decoded-IsValid none s h = cc
decoded-IsValid (some t) s h =
    let (u, valid, same) = >>=-eq-ok (validate_update_state t) _ h in
    subst IsValid (some_injective (ok_injective same)) (validate_update_state-IsValid t valid)

-- Whatever the file holds, a state that readState returns is valid: its revision is between 1 and a
-- million, its operation ID has no path separator, dot or newline, its owner owns an active phase, and
-- a complete one names its version and its image.
pub read_state-IsValid :
    (codec : Codec) (file : File) (s : UpdateState)
    → read_state codec file ≡ ok (some s)
    → IsValid s
unfolding read_state
read_state-IsValid codec absent s h = cc
read_state-IsValid codec irregular s h = cc
read_state-IsValid codec (regular contents) s h =
    decoded-IsValid (codec.unmarshal contents) s (ground arith)
