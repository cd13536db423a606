-- ===== src/Config/Precedence.antt =====
-- The process environment wins over the file, whose variables have valid names.
use redlaunch.Base.{
  ◌≡◌, refl, sym, subst, arith, inl, inr, Bool, true, false, if◌then◌else◌, Text, [], ◌∷◌, List,
  text_eq, text_eq_iff, trim_space, cut, Option, none, some, Option-cases, Bool-cases, ok,
  >>=-eq-ok, Result-cases, ok_injective,
}
use redlaunch.Base.Assoc.{Table, lookup, insert, lookup-insert}
use redlaunch.Config.DotEnv.{
  valid_dot_env_key, keyed_value, parse_dot_env_value, parse_line, add_entry, parse_lines,
  parse_dot_env, merged, read_environment, Opened, lines_of, not_there, broken, load_file, load_at,
  load_environment, file_variable, without_prefix, mark, without_export, default_file,
}

abbrev AreValid : Table Text → Type 0
AreValid values = (k v : Text) → lookup k values ≡ some v → valid_dot_env_key k ≡ true

module _ (unquote : Text → Option Text) where
  keyed_value-valid :
      (o : Option (Text × Text)) (k v : Text)
      → keyed_value unquote o ≡ ok (k, v)
      → valid_dot_env_key k ≡ true
  unfolding keyed_value
  keyed_value-valid none k v h = cc
  keyed_value-valid (some (before, after)) k v h =
      elim (Result-cases (parse_dot_env_value unquote (trim_space after))) [
        | inl (e, r) ↦ ground (arith, r)
        | inr (value, r) ↦ ground (arith, r)
      ]

  parse_line-valid :
      (text k v : Text) → parse_line unquote text ≡ ok (some (k, v)) → valid_dot_env_key k ≡ true
  unfolding parse_line
  parse_line-valid text k v h =
      let line : Text = trim_space (without_prefix mark text) in
      elim (Result-cases (keyed_value unquote (cut b'=' (without_export line)))) [
        | inl (e, r) ↦ ground (arith, r)
        | inr ((j, w), r) ↦
            ground (arith, r, keyed_value-valid (cut b'=' (without_export line)) j w r)
      ]

  add_entry-AreValid :
      (text : Text) (o : Option (Text × Text)) (values : Table Text)
      → parse_line unquote text ≡ ok o
      → AreValid values
      → AreValid (add_entry o values)
  unfolding add_entry
  add_entry-AreValid text none values h a k v l = a k v l
  add_entry-AreValid text (some (j, w)) values h a k v l =
      ground
        (arith, lookup-insert j k w values, text_eq_iff j k, parse_line-valid text j w h, a k v)

  parse_lines-AreValid :
      (complete : Bool) (lines : List Text) (values result : Table Text)
      → AreValid values
      → parse_lines unquote complete lines values ≡ ok result
      → AreValid result
  unfolding parse_lines
  parse_lines-AreValid true [] values result a h = subst AreValid (ok_injective h) a
  parse_lines-AreValid false [] values result a h = cc
  parse_lines-AreValid complete (line ∷ lines) values result a h =
      let (entry, read, rest) = >>=-eq-ok (parse_line unquote line) _ h in
      parse_lines-AreValid complete lines (add_entry entry values) result
        (add_entry-AreValid line entry values read a) rest

-- the first value if there is one, else the second
abbrev prefer : Option Text → Option Text → Option Text
prefer (some v) o = some v
prefer none o = o

prefer-none : (o : Option Text) → prefer o none ≡ o
prefer-none none = refl
prefer-none (some v) = refl

-- one more variable of the file
module _ (k j w : Text) (values environment rest : Table Text)
    (h : lookup k rest ≡ prefer (lookup k environment) (lookup k values)) where
  Goal : Option Text → Type 0
  Goal o =
      lookup k (elim o as (λ x. Table Text) [ none ↦ insert j w rest | some v ↦ rest ])
      ≡ prefer (lookup k environment) (if text_eq j k then some w else lookup k values)

  lookup-one : (o : Option Text) → lookup j environment ≡ o → Goal o
  unfolding Goal
  lookup-one none e = ground (arith, lookup-insert j k w rest, text_eq_iff j k)
  lookup-one (some v) e = ground (arith, text_eq_iff j k)

lookup-merged :
    (k : Text) (values environment : Table Text)
    → lookup k (merged values environment) ≡ prefer (lookup k environment) (lookup k values)
unfolding merged lookup Goal
lookup-merged k [] environment = sym (prefer-none (lookup k environment))
lookup-merged k ((j, w) ∷ values) environment =
    lookup-one k j w values environment (merged values environment)
      (lookup-merged k values environment) (lookup j environment) refl

-- Against the environment of the process: a variable that it has keeps its value, and any other
-- variable of the result has a valid name.
pub record Extends (environment result : Table Text) : Type 0 where
  pub keeps : (k v : Text) → lookup k environment ≡ some v → lookup k result ≡ some v
  pub adds_valid :
      (k v : Text)
      → lookup k environment ≡ none
      → lookup k result ≡ some v
      → valid_dot_env_key k ≡ true

Extends-refl : (environment : Table Text) → Extends environment environment
Extends-refl environment = record { keeps = λ k v h. h; adds_valid = λ k v n h. ground arith }

merged-Extends :
    (values environment : Table Text)
    → AreValid values
    → Extends environment (merged values environment)
merged-Extends values environment a = record {
  keeps = λ k v h. ground (arith, lookup-merged k values environment);
  adds_valid = λ k v n h. ground (arith, lookup-merged k values environment, a k v);
}

module _ (unquote : Text → Option Text) (environment : Table Text) where
  load_file-Extends :
      (configured : Bool) (o : Opened) (result : Table Text)
      → load_file unquote configured environment o ≡ ok result
      → Extends environment result
  unfolding load_file parse_dot_env lookup
  load_file-Extends true not_there result h = cc
  load_file-Extends false not_there result h =
      subst (Extends environment) (ok_injective h) (Extends-refl environment)
  load_file-Extends configured broken result h = cc
  load_file-Extends configured (lines_of lines complete) result h =
      let (values, read, same) = >>=-eq-ok (parse_dot_env unquote complete lines) _ h in
      subst (Extends environment) (ok_injective same) (
        merged-Extends values environment
          (parse_lines-AreValid unquote complete lines [] values (λ k v e. ground arith) read))

  load_at-Extends :
      (open_file : Text → Opened) (configured : Bool) (path : Text) (result : Table Text)
      → load_at unquote open_file configured path environment ≡ ok result
      → Extends environment result
  unfolding load_at
  load_at-Extends open_file configured path result h = elim (Bool-cases (text_eq path [])) [
    | inl e ↦
        let same : environment ≡ result = ground arith in
        subst (Extends environment) same (Extends-refl environment)
    | inr e ↦ load_file-Extends configured (open_file path) result (ground arith)
  ]

-- Whatever the dotenv file, a variable of the process environment keeps its value when
-- loadEnvironment succeeds, an empty value included, and every other variable of the result has a
-- valid name.
pub load_environment-Extends :
    (unquote : Text → Option Text) (open_file : Text → Opened) (entries : List Text)
    (result : Table Text)
    → load_environment unquote open_file entries ≡ ok result
    → Extends (read_environment [] entries) result
unfolding load_environment
load_environment-Extends unquote open_file entries result h =
    let environment : Table Text = read_environment [] entries in
    elim (Option-cases (lookup file_variable environment)) [
      | inl e ↦
          load_at-Extends unquote environment open_file false (trim_space default_file) result
            (ground (arith, e))
      | inr (path, e) ↦
          load_at-Extends unquote environment open_file true (trim_space path) result
            (ground (arith, e))
    ]
