-- ===== src/Auth/Limiter.antt =====
-- loginLimiter of internal/auth/local.go, lines 21-64. A time is a number of nanoseconds.
use redlaunch.Base.{
  ℕ, ◌+◌, ◌*◌, Bool, true, false, ◌||◌, leb, ltb, ◌==◌, if◌then◌else◌, Text, codes, ◌++◌, length,
  Option, none, some,
}
use redlaunch.Base.Assoc.{Table, lookup, insert, retain}

pub record Attempts : Type 0 where
  pub count : ℕ
  pub expires : ℕ

-- time.Minute
abbrev pub minute : ℕ
minute = 60 * 1000000000

unfoldable pub user_key : Text → Text
user_key username = codes "user:" ++ username

unfoldable pub address_key : Text → Text
address_key address = codes "ip:" ++ address

abbrev pub user_limit : ℕ
user_limit = 5

abbrev pub address_limit : ℕ
address_limit = 20

abbrev pub max_entries : ℕ
max_entries = 4096

-- `now.Before(attempts.expires)`
abbrev pub live : ℕ → Attempts → Bool
live now a = ltb now a.expires

unfoldable pub reached : ℕ → Option Attempts → Bool
reached limit none = false
reached limit (some a) = leb limit a.count

unfoldable pub missing : Option Attempts → ℕ
missing none = 1
missing (some a) = 0

-- one round of the last loop, from `l.entries[key]`
unfoldable pub counted : ℕ → Option Attempts → Attempts
counted now none = record { count = 1; expires = now + minute }
counted now (some a) = record {
  count = a.count + 1;
  expires = if a.count == 0 then now + minute else a.expires;
}

unfoldable pub count_attempt : ℕ → Text → Table Attempts → Table Attempts
count_attempt now key entries = insert key (counted now (lookup key entries)) entries

unfoldable pub allow :
    (now : ℕ) → (username address : Text) → Table Attempts → Bool × Table Attempts
allow now username address entries =
    let current = retain (live now) entries in
    let by_user = lookup (user_key username) current in
    let by_address = lookup (address_key address) current in
    if reached user_limit by_user
      || reached address_limit by_address
      || ltb max_entries (length current + (missing by_user + missing by_address))
    then (false, current)
    else (
      true,
      count_attempt now (address_key address) (count_attempt now (user_key username) current),
    )
