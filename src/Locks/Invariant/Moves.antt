-- ===== src/Locks/Invariant/Moves.antt =====
-- A move of one caller keeps the memory consistent.
use redlaunch.Base.{
  ℕ, ◌+◌, ◌<◌, ◌≡◌, refl, ap, ◌-◌, ◌&&◌, ◌∙◌, ◌==◌, if◌then◌else◌, true, false, none, some, Text,
  arith, text_eq, text_eq_iff,
}
use redlaunch.Base.Assoc.{lookup, insert, lookup-insert, lookup-erase}
use redlaunch.Locks.Families.{put, sum, sum-put, weight-le-sum}
use redlaunch.Locks.Manager.{
  Manager, send, receive, release_reference, drop_reference, add_reference, create, points_to,
}
use redlaunch.Locks.Callers.{Pc, idle, holding, releasing}
use redlaunch.Locks.Invariant.Defs.{target, refers, holds, refers_at, IsConsistent}

module _ (key : Text) (a : ℕ) (m : Manager) where
  release_reference-heap :
      (b : ℕ)
      → (release_reference key a m).heap b ≡ (
          if a == b
          then record { full = (m.heap a).full; refs = (m.heap a).refs - 1 }
          else m.heap b)
  unfolding release_reference drop_reference put
  release_reference-heap b = ground arith

  release_reference-fresh : (release_reference key a m).fresh ≡ m.fresh
  unfolding release_reference drop_reference put
  release_reference-fresh = ground arith

  release_reference-lookup :
      (j : Text)
      → lookup key m.locks ≡ some a
      → lookup j (release_reference key a m).locks
        ≡ (if (m.heap a).refs - 1 == 0 && text_eq key j then none else lookup j m.locks)
  unfolding release_reference drop_reference put points_to
  release_reference-lookup j h = ground (arith, lookup-erase key j m.locks)

module _ {n : ℕ} {m : Manager} {pc : ℕ → Pc} (inv : IsConsistent n m pc) (i : ℕ) (lt : i < n) where
  open inv use {counted, tokens, mapped, used, one_key, unused, outside}

  -- a caller that goes from `p` to `q`
  pub record Mover (p q : Pc) : Type 0 where
    pub here : pc i ≡ p
    pub users :
        (a : ℕ) → sum (refers a) n (put i q pc) + refers a p ≡ sum (refers a) n pc + refers a q
    pub holders :
        (a : ℕ) → sum (holds a) n (put i q pc) + holds a p ≡ sum (holds a) n pc + holds a q

  pub mover : (q : Pc) → Mover (pc i) q
  mover q = record {
    here = refl;
    users = λ a. sum-put (refers a) n i q pc lt;
    holders = λ a. sum-put (holds a) n i q pc lt;
  }

  -- Nothing changes in memory.
  pub still :
      {p q : Pc}
      → Mover p q
      → target p ≡ target q
      → ((a : ℕ) → holds a p ≡ holds a q)
      → IsConsistent n m (put i q pc)
  unfolding put
  still {p} {q} f e h = record {
    counted = λ a. omega (arith, counted a, f.users a, ap (refers_at a) e);
    tokens = λ a. omega (arith, tokens a, f.holders a, h a);
    mapped = λ j k a r. ground (arith, mapped j k a, f.here, e);
    used = used;
    one_key = one_key;
    unused = unused;
    outside = λ j r. ground (arith, outside j);
  }

  -- The caller goes from `idle` to the lock of a key that is in the map.
  pub joined :
      {q : Pc} (k : Text) (a : ℕ)
      → Mover idle q
      → target q ≡ some (k, a)
      → ((b : ℕ) → holds b q ≡ 0)
      → lookup k m.locks ≡ some a
      → IsConsistent n (add_reference a m) (put i q pc)
  unfolding put add_reference
  joined {q} k a f e h l = record {
    counted = λ b. ground (arith, counted b, f.users b, ap (refers_at b) e);
    tokens = λ b. ground (arith, tokens b, f.holders b, h b);
    mapped = λ j c b r. ground (arith, mapped j c b);
    used = λ c b r. ground (arith, used c b);
    one_key = one_key;
    unused = λ b r. ground (arith, unused b, unused a, used k a);
    outside = λ j r. ground (arith, outside j);
  }

  -- The caller goes from `idle` to a new lock, for a key that is not in the map.
  pub opened :
      {q : Pc} (k : Text)
      → Mover idle q
      → target q ≡ some (k, m.fresh)
      → ((b : ℕ) → holds b q ≡ 0)
      → lookup k m.locks ≡ none
      → IsConsistent n (add_reference m.fresh (create k m)) (put i q pc)
  unfolding put add_reference create insert
  opened {q} k f e h l = record {
    counted = λ b. ground (arith, counted b, f.users b, ap (refers_at b) e, unused b);
    tokens = λ b. ground (arith, tokens b, f.holders b, h b, unused b);
    mapped =
        λ j c b r. ground (arith, mapped j c b, lookup-insert k c m.fresh m.locks, text_eq_iff k c);
    used = λ c b r. ground (arith, used c b, lookup-insert k c m.fresh m.locks);
    one_key = λ c d b r t. ground (
      arith,
      one_key c d b,
      lookup-insert k c m.fresh m.locks,
      lookup-insert k d m.fresh m.locks,
      text_eq_iff k c,
      text_eq_iff k d,
      used c b,
      used d b,
      unused b,
    );
    unused = λ b r. ground (arith, unused b);
    outside = λ j r. ground (arith, outside j);
  }

  -- The caller puts the token into the channel of its lock.
  pub taken :
      {p : Pc} (k : Text) (a : ℕ)
      → Mover p (holding k a)
      → target p ≡ some (k, a)
      → ((b : ℕ) → holds b p ≡ 0)
      → (m.heap a).full ≡ false
      → IsConsistent n (send a m) (put i (holding k a) pc)
  unfolding put send
  taken {p} k a f e h l = record {
    counted = λ b. ground (arith, counted b, f.users b, ap (refers_at b) e);
    tokens = λ b. ground (arith, tokens b, f.holders b, h b);
    mapped = λ j c b r. ground (arith, mapped j c b, f.here);
    used = λ c b r. ground (arith, used c b);
    one_key = one_key;
    unused = λ b r. ground (arith, unused b, mapped i k a, f.here, used k a);
    outside = λ j r. ground (arith, outside j);
  }

  -- The caller takes the token out of the channel of its lock.
  pub freed :
      (k : Text) (a : ℕ)
      → Mover (holding k a) (releasing k a)
      → (m.heap a).full ≡ true
      → IsConsistent n (receive a m) (put i (releasing k a) pc)
  unfolding put receive
  freed k a f l = record {
    counted = λ b. ground (arith, counted b, f.users b);
    tokens = λ b. ground (arith, tokens b, f.holders b);
    mapped = λ j c b r. ground (arith, mapped j c b, f.here);
    used = λ c b r. ground (arith, used c b);
    one_key = one_key;
    unused = λ b r. ground (arith, unused b);
    outside = λ j r. ground (arith, outside j);
  }

  -- The caller leaves its lock, and the key goes with the last caller.
  pub left :
      {p : Pc} (k : Text) (a : ℕ)
      → Mover p idle
      → target p ≡ some (k, a)
      → ((b : ℕ) → holds b p ≡ 0)
      → IsConsistent n (release_reference k a m) (put i idle pc)
  unfolding put
  left {p} k a f e h = record {
    counted = λ b. ground (arith, counted b, f.users b, ap (refers_at b) e, heap b);
    tokens = λ b. ground (arith, tokens b, f.holders b, h b, heap b);
    mapped = λ j c b r. ground (
      arith,
      mapped j c b,
      keys c,
      counted a,
      f.users a,
      ap (refers_at a) e,
      weight-le-sum (refers a) n j (put i idle pc),
      outside j,
      text_eq_iff k c,
      at_key,
    );
    used =
        λ c b r. ground (arith, used c b, keys c, heap b, one_key k c b, text_eq_iff k c, at_key);
    one_key = λ c d b r t. ground (arith, one_key c d b, keys c, keys d);
    unused =
        λ b r. ground (arith, unused b, heap b, release_reference-fresh k a m, used k a, at_key);
    outside = λ j r. ground (arith, outside j);
  }
    where
      at_key : lookup k m.locks ≡ some a
      at_key = mapped i k a (ap target f.here ∙ e)

      heap :
          (b : ℕ)
          → (release_reference k a m).heap b ≡ (
              if a == b
              then record { full = (m.heap a).full; refs = (m.heap a).refs - 1 }
              else m.heap b)
      heap = release_reference-heap k a m

      keys :
          (j : Text)
          → lookup j (release_reference k a m).locks
            ≡ (if (m.heap a).refs - 1 == 0 && text_eq k j then none else lookup j m.locks)
      keys j = release_reference-lookup k a m j at_key
