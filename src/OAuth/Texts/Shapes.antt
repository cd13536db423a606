-- ===== src/OAuth/Texts/Shapes.antt =====
-- Resource URIs and tokens (internal/application/oauth.go and api_tokens.go): what is written is read
-- back, and nothing else is accepted.
use redlaunch.Base.{
  ℕ, ◌≡◌, ◌≤◌, ◌<◌, ◌⊎◌, inl, inr, refl, false, [], ◌∷◌, ◌++◌, Option, none, some, Text, codes,
  text_eq, text_eq_iff, ok, arith, cut_prefix, cut_prefix-append, cut_prefix_sound, Bool-cases,
  Option-cases, append_assoc,
}
use redlaunch.Base.Number.{
  ℤ, pos, negsuc, parse_int, format_int, max_int64, format_nat, parse_int-format_nat,
}
use redlaunch.OAuth.Types.{Resource, run, manage}
use redlaunch.OAuth.Texts.{
  oauth_manage_resource, oauth_application_resource, application_resource, parse_oauth_resource,
}

text_eq-append : (s t u : Text) → text_eq (s ++ t) (s ++ u) ≡ text_eq t u
unfolding text_eq
text_eq-append [] t u = refl
text_eq-append (c ∷ s) t u = ground (arith, text_eq-append s t u)

application_not_manage :
    (origin rest : Text)
    → text_eq ((origin ++ codes "/mcp/apps/") ++ rest) (origin ++ codes "/mcp/manage") ≡ false
unfolding text_eq
application_not_manage origin rest =
    rw (append_assoc origin (codes "/mcp/apps/") rest)
      (text_eq-append origin (codes "/mcp/apps/" ++ rest) (codes "/mcp/manage"))

-- The resource URI of an application whose ID is positive and fits into an int64 is read back as a
-- resource of scope `run` with the same ID.
pub parse_oauth_resource-application :
    (origin : Text) (id : ℕ)
    → 0 < id
    → id ≤ max_int64
    → let uri = oauth_application_resource origin (pos id) in
      parse_oauth_resource origin uri ≡ ok (record { uri = uri; scope = run; application_id = id })
unfolding parse_oauth_resource oauth_application_resource oauth_manage_resource application_resource
    format_int
parse_oauth_resource-application origin id positive small =
    rw
      (
        application_not_manage origin (format_nat id),
        cut_prefix-append (origin ++ codes "/mcp/apps/") (format_nat id),
        parse_int-format_nat id small,
      )
      (ground (arith, text_eq_iff (format_nat id) (format_nat id)))

application_resource_sound :
    (value text : Text) (parsed : Option ℤ) (r : Resource)
    → application_resource value text parsed ≡ ok r
    → (r.uri ≡ value)
      × (r.scope ≡ run)
      × (0 < r.application_id)
      × (format_int (pos r.application_id) ≡ text)
unfolding application_resource
application_resource_sound value text none r h = ground arith
application_resource_sound value text (some (negsuc n)) r h = ground arith
application_resource_sound value text (some (pos id)) r h =
    ground (arith, text_eq_iff (format_int (pos id)) text)

-- A resource that is accepted keeps the text as its URI; either it is the management endpoint's URI
-- with scope `manage` and no application, or it is exactly the URI of the application with its ID, which is
-- positive, with scope `run`.
pub parse_oauth_resource_sound :
    (origin value : Text) (r : Resource)
    → parse_oauth_resource origin value ≡ ok r
    → (r.uri ≡ value)
      × (((r.scope ≡ manage) × (r.application_id ≡ 0) × (value ≡ oauth_manage_resource origin))
          ⊎ ((r.scope ≡ run)
              × (0 < r.application_id)
              × (value ≡ oauth_application_resource origin (pos r.application_id))))
unfolding parse_oauth_resource oauth_application_resource
parse_oauth_resource_sound origin value r h =
    let prefix = origin ++ codes "/mcp/apps/" in
    elim (Bool-cases (text_eq value (oauth_manage_resource origin))) [
      | inl whole ↦
          let same = (text_eq_iff value (oauth_manage_resource origin)).0 whole in
          (ground arith, inl (ground arith, ground arith, same))
      | inr other ↦ elim (Option-cases (cut_prefix prefix value)) [
        | inl absent ↦ ground arith
        | inr (text, found) ↦
            let read : application_resource value text (parse_int text) ≡ ok r = ground arith in
            let (uri, scope, positive, id) =
              application_resource_sound value text (parse_int text) r read in
            let whole = cut_prefix_sound prefix value text found in
            (uri, inr (scope, positive, rw id whole))
      ]
    ]
