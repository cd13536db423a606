-- ===== src/Auth/Throttle.antt =====
-- The bounds of the login limiter over any sequence of attempts.
use redlaunch.Base.{
  ℕ, ◌+◌, ◌-◌, ◌*◌, ◌≤◌, ◌<◌, ◌≡◌, arith, inl, inr, Bool, false, ◌&&◌, leb, if◌then◌else◌, Text,
  length, Option, none, some, List, [], ◌∷◌, text_eq, All, Bool-cases, Option-cases, select,
}
use redlaunch.Base.Assoc.{Table, lookup, length-insert-le}
use redlaunch.Base.Unique.{IsUnique, kept, insert-IsUnique, length-insert-present}
use redlaunch.Auth.Limiter.{
  Attempts, minute, user_key, address_key, user_limit, address_limit, live, reached, missing,
  counted, count_attempt, allow,
}
use redlaunch.Auth.Attempts.{
  Attempt, run, IsLimited, Turn, unchanged, counts, user_turn, address_turn, current,
  current-IsLimited, counted_both, allow_cases, lookup-count_attempt, keys_apart,
}

length-count_attempt :
    (now : ℕ) (k : Text) (m : Table Attempts)
    → length (count_attempt now k m) ≤ length m + missing (lookup k m)
unfolding count_attempt missing
length-count_attempt now k m = elim (Option-cases (lookup k m)) [
  | inl e ↦ rw e (length-insert-le k (counted now none) m)
  | inr (a, e) ↦ ground (arith, length-insert-present k (counted now (lookup k m)) a m e)
]

count_attempt-IsUnique :
    (now : ℕ) (k : Text) (m : Table Attempts) → IsUnique m → IsUnique (count_attempt now k m)
unfolding count_attempt
count_attempt-IsUnique now k m n = insert-IsUnique k (counted now (lookup k m)) m n

-- An attempt leaves a table of the limiter in order.
allow-IsLimited :
    (now : ℕ) (u a : Text) (entries : Table Attempts)
    → IsLimited entries
    → IsLimited (allow now u a entries).1
unfolding counted_both
allow-IsLimited now u a entries h =
    allow_cases now u a entries (λ r. IsLimited r.1) order
      (λ q. record {
        unique =
            count_attempt-IsUnique now (address_key a) _
              (count_attempt-IsUnique now (user_key u) _ order.unique);
        few = ground (
          arith,
          q.room,
          length-count_attempt now (address_key a) (count_attempt now (user_key u) live_entries),
          length-count_attempt now (user_key u) live_entries,
          lookup-count_attempt now (user_key u) (address_key a) live_entries,
          keys_apart u a,
        );
      })
  where
    live_entries : Table Attempts
    live_entries = current now u a entries

    order : IsLimited (current now u a entries)
    order = current-IsLimited now u a entries h.unique h.few

-- The attempts that an entry still lets pass before `until`: the rest of its limit, and a whole limit
-- more if it expires before.
budget : (limit until : ℕ) → Option Attempts → ℕ
budget limit until none = limit
budget limit until (some a) =
    if leb until a.expires then limit - a.count else (limit - a.count) + limit

module _ (limit until now : ℕ) (early : now < until) (late : until ≤ now + minute)
    (positive : 0 < limit) where
  budget-kept :
      (o : Option Attempts) → budget limit until (kept (live now) o) ≤ budget limit until o
  unfolding budget
  budget-kept none = omega arith
  budget-kept (some a) = ground arith

  budget-counted :
      (o : Option Attempts)
      → reached limit (kept (live now) o) ≡ false
      → budget limit until (some (counted now (kept (live now) o))) + 1 ≤ budget limit until o
  unfolding budget reached counted
  budget-counted none h = ground arith
  budget-counted (some a) h = ground arith

-- The attempts at times from `t` on, within a minute.
abbrev pub Within : ℕ → List Attempt → Type 0
Within t = All (λ a. (t ≤ a.now) × (a.now < t + minute))

Turn-budget :
    (limit t now : ℕ) (mine passed : Bool) {before after : Option Attempts}
    → t ≤ now
    → now < t + minute
    → 0 < limit
    → Turn limit now mine passed before after
    → budget limit (t + minute) after + (if mine && passed then 1 else 0)
      ≤ budget limit (t + minute) before
Turn-budget limit t now mine passed {before} {after} le lt p (unchanged q e) =
    ground (arith, budget-kept limit (t + minute) now lt (omega arith) p before, e)
Turn-budget limit t now mine passed {before} {after} le lt p (counts m r e) =
    ground (arith, budget-counted limit (t + minute) now lt (omega arith) p before r, e)

module _ (limit t : ℕ) (positive : 0 < limit) (key : Text) (mine : Attempt → Bool)
    (turn : (a : Attempt) (entries : Table Attempts)
      → IsUnique entries
      → Turn limit a.now
          (mine a)
          (allow a.now a.username a.address entries).0
          (lookup key entries)
          (lookup key (allow a.now a.username a.address entries).1)) where
  count_passed :
      (attempts : List Attempt) (entries : Table Attempts)
      → IsLimited entries
      → Within t attempts
      → length (select mine (run attempts entries).0)
        ≤ budget limit (t + minute) (lookup key entries)
  unfolding run select
  count_passed [] entries h w = omega arith
  count_passed (a ∷ attempts) entries h (w, ws) =
      let next : Table Attempts = (allow a.now a.username a.address entries).1 in
      let rest =
        count_passed attempts next (allow-IsLimited a.now a.username a.address entries h) ws in
      ground (
        arith,
        rest,
        Turn-budget limit t a.now (mine a) (allow a.now a.username a.address entries).0 w.0 w.1
            positive (turn a entries h.unique),
      )

budget_le : (limit until : ℕ) (o : Option Attempts) → budget limit until o ≤ 2 * limit
unfolding budget
budget_le limit until none = omega arith
budget_le limit until (some a) = ground arith

-- From a table of at most 4,096 entries with distinct keys, any sequence of login attempts leaves such
-- a table, whatever the times, usernames and addresses.
pub run-IsLimited :
    (attempts : List Attempt) (entries : Table Attempts)
    → IsLimited entries
    → IsLimited (run attempts entries).1
unfolding run
run-IsLimited [] entries h = h
run-IsLimited (a ∷ attempts) entries h =
    let rest =
      run-IsLimited attempts (allow a.now a.username a.address entries).1
        (allow-IsLimited a.now a.username a.address entries h) in
    elim (Bool-cases (allow a.now a.username a.address entries).0) [
      | inl e ↦ rw e rest
      | inr e ↦ rw e rest
    ]

-- From such a table, of login attempts at times within one minute, in any order, at most ten pass for
-- one username and at most forty for one address.
pub attempts_limited :
    (t : ℕ) (attempts : List Attempt) (entries : Table Attempts) (username address : Text)
    → IsLimited entries
    → Within t attempts
    → (length (select (λ a. text_eq a.username username) (run attempts entries).0) ≤ 10)
      × (length (select (λ a. text_eq a.address address) (run attempts entries).0) ≤ 40)
attempts_limited t attempts entries username address h w = (
  omega (
    arith,
    count_passed user_limit t (omega arith) (user_key username) (λ a. text_eq a.username username)
        (λ a m n. user_turn a.now a.username a.address m n username) attempts entries h w,
    budget_le user_limit (t + minute) (lookup (user_key username) entries),
  ),
  omega (
    arith,
    count_passed address_limit t (omega arith) (address_key address)
        (λ a. text_eq a.address address)
        (λ a m n. address_turn a.now a.username a.address m n address) attempts entries h w,
    budget_le address_limit (t + minute) (lookup (address_key address) entries),
  ),
)
