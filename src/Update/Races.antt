-- ===== src/Update/Races.antt =====
-- Two writers that have read the same state of an operation.
use redlaunch.Base.{
  ok_injective, some_injective, ℕ, zero, suc, ◌≤◌, ◌≡◌, refl, ap, sym, subst, ◌∙◌, arith, false,
  ltb→lt, Text, [], ◌∷◌, ◌++◌, text_eq_refl, len, Option, some, Result, ok, err,
}
use redlaunch.Base.Number.{int_eq, ℤ, pos, negsuc}
use redlaunch.Update.State.{UpdateState}
use redlaunch.Update.Validation.{Error, changed_concurrently, validate_update_state}
use redlaunch.Update.Files.{File, Disk}
use redlaunch.Update.Store.{
  Codec, read_state, prepared, increment, next_revision, commit, write_state, max_bytes, decoded,
}
use redlaunch.Update.Writers.{
  Follows, first, new_operation, same_operation, Successor, stored, Outcome, replaced, kept,
  replaced_unsynced, write_state_outcomes,
}

increment-ne : (r : ℤ) → int_eq r (increment r) ≡ false
unfolding int_eq increment
increment-ne (pos n) = ground arith
increment-ne (negsuc zero) = refl
increment-ne (negsuc (suc n)) = ground arith

-- What json.Unmarshal owes json.Marshal at one state, whose text with its newline is small enough to
-- be read.
abbrev pub ReadsBack : Codec → UpdateState → Type 0
ReadsBack codec s =
    (contents : Text)
    → codec.marshal s ≡ some contents
    → (len (contents ++ b'\n' ∷ []) ≤ max_bytes)
      × (codec.unmarshal (contents ++ b'\n' ∷ []) ≡ some s)

abbrev Stored : Codec → ℕ → UpdateState → File → UpdateState → File → Type 0
Stored codec now s file next after =
    (contents : Text) × Successor codec now s file next contents × (after ≡ stored contents)

outcome-ok :
    {codec : Codec} {now : ℕ} {disk : Disk} {s : UpdateState} {file : File}
    {r : Result Error UpdateState × File} {next : UpdateState}
    → Outcome codec now disk s file r
    → r.0 ≡ ok next
    → Stored codec now s file next r.1
outcome-ok {codec} {now} {s = s} {file = file} (replaced {next} {contents} q) h =
    subst (λ n. Stored codec now s file n (stored contents)) (ok_injective h) (contents, q, refl)
outcome-ok (kept e) h = cc
outcome-ok (replaced_unsynced d q) h = cc

-- a valid state with its text in the file is read again
read-stored :
    (codec : Codec) (next : UpdateState) (contents : Text)
    → validate_update_state next ≡ ok tt
    → codec.marshal next ≡ some contents
    → ReadsBack codec next
    → read_state codec (stored contents) ≡ ok (some next)
unfolding read_state decoded
read-stored codec next contents valid text back =
    let (small, same) = back contents text in
    rw (same, valid) (ground (arith, ltb→lt max_bytes (len (contents ++ b'\n' ∷ []))))

Follows-same :
    {s next : UpdateState} {before : Option UpdateState} (current : UpdateState)
    → Follows s next before
    → before ≡ some current
    → next.operation_id ≡ current.operation_id
    → next.revision ≡ increment current.revision
Follows-same current (first r) e o = cc
Follows-same current (new_operation {current = c} ended differs r) e o =
    absurd (differs (ap (λ x. x.operation_id) (some_injective e) ∙ sym o))
Follows-same current (same_operation {current = c} o' r n) e o =
    n ∙ ap (λ x. increment x.revision) (some_injective e)

stale-revision :
    (later : ℕ) (t next : UpdateState)
    → next.operation_id ≡ t.operation_id
    → next.revision ≡ increment t.revision
    → next_revision (some next) (prepared later t) ≡ err changed_concurrently
unfolding next_revision prepared
stale-revision later t next same step =
    rw (same, step, text_eq_refl t.operation_id, increment-ne t.revision) refl

stale-refused :
    (codec : Codec) (later : ℕ) (disk : Disk) (t next : UpdateState) (file : File)
    → read_state codec file ≡ ok (some next)
    → next.operation_id ≡ t.operation_id
    → next.revision ≡ increment t.revision
    → write_state codec later disk t file ≡ (err changed_concurrently, file)
unfolding write_state commit
stale-refused codec later disk t next file read same step =
    rw (read, stale-revision later t next same step) refl

-- Two writers have read one state of an operation and both write to that operation. When the first
-- has succeeded with a state that json.Unmarshal reads back, the second is refused, and the file keeps
-- what the first wrote.
pub second_writer_fails :
    (codec : Codec) (file after : File) (current s t next : UpdateState) (now later : ℕ)
    (disk disk' : Disk)
    → read_state codec file ≡ ok (some current)
    → s.operation_id ≡ current.operation_id
    → t.operation_id ≡ current.operation_id
    → t.revision ≡ current.revision
    → write_state codec now disk s file ≡ (ok next, after)
    → ReadsBack codec next
    → write_state codec later disk' t after ≡ (err changed_concurrently, after)
unfolding prepared
second_writer_fails codec file after current s t next now later disk disk' read same same' stale w
      back =
    let (contents, q, e) =
      outcome-ok (write_state_outcomes codec now disk s file) (ap (λ r. r.0) w) in
    let is_after : stored contents ≡ after = sym e ∙ ap (λ r. r.1) w in
    let kept_id : next.operation_id ≡ s.operation_id = ap (λ x. x.operation_id) q.filled in
    let step =
      Follows-same current q.follows (ok_injective (sym q.was_read ∙ read)) (kept_id ∙ same) in
    stale-refused codec later disk' t next after
      (subst (λ f. read_state codec f ≡ ok (some next)) is_after
        (read-stored codec next contents q.valid q.marshalled back))
      (kept_id ∙ same ∙ sym same') (step ∙ ap increment (sym stale))
