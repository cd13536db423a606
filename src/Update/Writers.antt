-- ===== src/Update/Writers.antt =====
-- Writers of the state file: what a call leaves, and what a second writer finds.
use redlaunch.Base.{
  ok_injective, ℕ, ◌≤◌, ◌≡◌, ◌≢◌, refl, sym, subst, arith, inl, inr, true, leb→le, Text, [], ◌∷◌,
  ◌++◌, text_eq, text_eq_iff, len, Option, none, some, Result, ok, err, ◌>>=◌, >>=-eq-ok,
  Bool-cases,
}
use redlaunch.Base.Number.{int_eq_iff, ℤ, pos}
use redlaunch.Update.State.{UpdateState, terminal}
use redlaunch.Update.Validation.{Error, input_output, validate_update_state}
use redlaunch.Update.Files.{File, regular, Disk, done, failed, unsynced, change, write_managed_file}
use redlaunch.Update.Store.{
  Codec, read_state, prepared, increment, next_revision, planned, sized, commit, written,
  first_revision, write_state, max_bytes,
}

-- How the state in the file before a write, the state that the caller had and the state that is
-- written belong together.
pub data Follows (s next : UpdateState) : Option UpdateState → Type 0 where
  first : next.revision ≡ pos 1 → Follows s next none
  new_operation :
      {current : UpdateState}
      → terminal current ≡ true
      → current.operation_id ≢ next.operation_id
      → next.revision ≡ pos 1
      → Follows s next (some current)
  same_operation :
      {current : UpdateState}
      → current.operation_id ≡ next.operation_id
      → s.revision ≡ current.revision
      → next.revision ≡ increment current.revision
      → Follows s next (some current)

first_revision-eq : (r v : ℤ) → first_revision r ≡ ok v → v ≡ pos 1
unfolding first_revision
first_revision-eq r v h = ground arith

module _ (s next : UpdateState) (o : next.operation_id ≡ s.operation_id) where
  next_revision-Follows :
      (current : Option UpdateState)
      → next_revision current s ≡ ok next.revision
      → Follows s next current
  unfolding next_revision
  next_revision-Follows none h = first (first_revision-eq s.revision next.revision h)
  next_revision-Follows (some current) h =
      elim (Bool-cases (text_eq current.operation_id s.operation_id)) [
        | inl same ↦
            same_operation (ground (arith, text_eq_iff current.operation_id s.operation_id))
              (ground (arith, int_eq_iff s.revision current.revision)) (ground arith)
        | inr differs ↦
            new_operation (ground arith)
              (λ e. ground (arith, text_eq_iff current.operation_id s.operation_id))
              (ground (arith, first_revision-eq s.revision next.revision))
      ]

sized-eq : (o : Option Text) (t : Text) → sized o ≡ ok t → (o ≡ some t) × (len t ≤ max_bytes)
unfolding sized
sized-eq none t h = cc
sized-eq (some u) t h = ground (arith, leb→le (len u) max_bytes)

-- what a write has gone through when it has planned a state and its text
abbrev IsPlanned : Codec → UpdateState → UpdateState × Text → Type 0
IsPlanned codec next p =
    (p.0 ≡ next)
    × (validate_update_state next ≡ ok tt)
    × (codec.marshal next ≡ some p.1)
    × (len p.1 ≤ max_bytes)

planned-IsPlanned :
    (codec : Codec) (s : UpdateState) (r : ℤ) {p : UpdateState × Text}
    → planned codec s r ≡ ok p
    → IsPlanned codec (record s { revision = r }) p
unfolding planned
planned-IsPlanned codec s r {p} h =
    let filled : UpdateState = record s { revision = r } in
    let (t, valid, rest) = >>=-eq-ok (validate_update_state filled) _ h in
    let (text, fits, same) = >>=-eq-ok (sized (codec.marshal filled)) _ rest in
    let (some_text, small) = sized-eq (codec.marshal filled) text fits in
    subst (IsPlanned codec filled) (ok_injective same) (refl, valid, some_text, small)

-- a successor of the state in the file, and its text
pub record Successor (codec : Codec) (now : ℕ) (s : UpdateState) (file : File) (next : UpdateState)
    (contents : Text) : Type 0 where
  pub current : Option UpdateState
  pub was_read : read_state codec file ≡ ok current
  pub follows : Follows (prepared now s) next current
  pub filled : next ≡ record (prepared now s) { revision = next.revision }
  pub valid : validate_update_state next ≡ ok tt
  pub marshalled : codec.marshal next ≡ some contents
  pub small : len contents ≤ max_bytes

abbrev pub stored : Text → File
stored contents = regular (contents ++ b'\n' ∷ [])

pub data Outcome (codec : Codec) (now : ℕ) (disk : Disk) (s : UpdateState) (file : File)
    : Result Error UpdateState × File → Type 0 where
  replaced :
      {next : UpdateState} {contents : Text}
      → Successor codec now s file next contents
      → Outcome codec now disk s file (ok next, stored contents)
  kept : (e : Error) → Outcome codec now disk s file (err e, file)
  replaced_unsynced :
      {next : UpdateState} {contents : Text}
      → disk ≡ unsynced
      → Successor codec now s file next contents
      → Outcome codec now disk s file (err input_output, stored contents)

module _ (codec : Codec) (now : ℕ) (s : UpdateState) (file : File) where
  chain : Result Error (UpdateState × Text)
  chain = read_state codec file >>= λ current.
      next_revision current (prepared now s) >>= λ revision. planned codec (prepared now s) revision

  chain-Successor : (p : UpdateState × Text) → chain ≡ ok p → Successor codec now s file p.0 p.1
  unfolding chain prepared
  chain-Successor p h =
      let (current, read, rest) = >>=-eq-ok (read_state codec file) _ h in
      let (revision, numbered, plan) = >>=-eq-ok (next_revision current (prepared now s)) _ rest in
      let filled : UpdateState = record (prepared now s) { revision = revision } in
      let (e, valid, text, small) =
        planned-IsPlanned codec (prepared now s) revision {p = p} plan in
      subst (λ next. Successor codec now s file next p.1) (sym e)
        (record {
          current = current;
          was_read = read;
          follows = next_revision-Follows (prepared now s) filled refl current numbered;
          filled = refl;
          valid = valid;
          marshalled = text;
          small = small;
        })

  committed :
      (disk : Disk) (r : Result Error (UpdateState × Text))
      → chain ≡ r
      → Outcome codec now disk s file (commit disk file r)
  unfolding commit written write_managed_file change
  committed disk (err e) h = kept e
  committed done (ok (next, contents)) h = replaced (chain-Successor (next, contents) h)
  committed failed (ok (next, contents)) h = kept input_output
  committed unsynced (ok (next, contents)) h =
      replaced_unsynced refl (chain-Successor (next, contents) h)

-- A call to writeState ends in one of three ways. It succeeds, and the file holds the text of the state
-- that is returned, which is valid, is the caller's with its defaults filled in and a new revision, and
-- follows the state in the file: it is the first one with revision 1, or a new operation with revision
-- 1 after a terminal one, or the same operation with the next revision, where the caller knew the
-- current one. Or it fails and the file is as before. Or it fails since the directory could not be
-- synced, and the file holds such a successor.
pub write_state_outcomes :
    (codec : Codec) (now : ℕ) (disk : Disk) (s : UpdateState) (file : File)
    → Outcome codec now disk s file (write_state codec now disk s file)
unfolding write_state chain
write_state_outcomes codec now disk s file =
    committed codec now s file disk (chain codec now s file) refl
