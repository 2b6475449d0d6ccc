-- ===== src/Core/Settings/Hardening.antt =====
-- What the validators of core/settings.py guarantee of the endpoint that browsers are sent to.
use fuze.Prelude.{
  String, Bool, true, false, not, ◌||◌, List, [], ◌∷◌, ◌≡◌, refl, arith, ltb, ◌==◌, string_eq,
  Bool-cases, Option-cases, inl, inr, if◌then◌else◌,
}
use fuze.Prelude.Texts.{lower, count_chars, join, starts_with}
use fuze.Core.Result.{Result, ok, err}
use fuze.Core.Settings.{
  Settings, check_default_key, validate_cookie_samesite, production_errors, add_if, no_errors,
  insecure_endpoint, unreachable_endpoint, enforce_production_security, validated, validate,
}
use fuze.Integrations.Storage.{Endpoints, endpoint_url}

add_if_nil :
    (b : Bool) (e : String) (errors : List String)
    → add_if b e errors ≡ []
    → (b ≡ false) × (errors ≡ [])
add_if_nil true e errors h = absurd (cc)
add_if_nil false e errors h = (refl, h)

prefixed : (ext : String) → starts_with "https://" (join "https" (join "://" ext)) ≡ true
unfolding starts_with join
prefixed ext = refl

joined-https :
    (ext : String) (secure : Bool)
    → (starts_with "http://" ext || not (starts_with "https://" ext || secure)) ≡ false
    → starts_with "https://" (
        if starts_with "http://" ext || starts_with "https://" ext
        then ext
        else join (if secure then "https" else "http") (join "://" ext))
      ≡ true
joined-https ext secure safe = elim (Bool-cases (starts_with "http://" ext)) [
  | inl plain ↦ absurd (ground (arith, plain, safe))
  | inr other ↦ elim (Bool-cases (starts_with "https://" ext)) [
    | inl named ↦ rw (other, named) named
    | inr bare ↦
        let chosen : secure ≡ true = ground (arith, other, bare, safe) in
        rw (other, bare, chosen) (prefixed ext)
  ]
]

-- an endpoint that is accepted is reached by HTTPS
endpoint_url-https :
    (e : Endpoints)
    → lower e.external_endpoint ≡ e.external_endpoint
    → insecure_endpoint e ≡ false
    → starts_with "https://" (endpoint_url e true) ≡ true
unfolding insecure_endpoint endpoint_url
endpoint_url-https e low safe = elim (Option-cases e.external_secure) [
  | inl unset ↦
      simp unset (joined-https e.external_endpoint e.secure (simp unset at (rw low at safe)))
  | inr (b, set) ↦ simp set (joined-https e.external_endpoint b (simp set at (rw low at safe)))
]

no_errors_nil : (s t : Settings) (es : List String) → no_errors s es ≡ ok t → (s ≡ t) × (es ≡ [])
no_errors_nil s t [] won = (cc, refl)
no_errors_nil s t (e ∷ es) won = absurd (cc)

module _ (s : Settings) (low : lower s.minio.external_endpoint ≡ s.minio.external_endpoint) where
  -- a production instance whose checks report nothing
  clean-https : production_errors s ≡ [] → starts_with "https://" (endpoint_url s.minio true) ≡ true
  unfolding production_errors
  clean-https clean =
      let (c1, r1) = add_if_nil (not s.cookie_secure) _ _ clean in
      let (c2, r2) = add_if_nil s.debug _ _ r1 in
      let (c3, r3) = add_if_nil (ltb (count_chars s.jwt_security_key) 32) _ _ r2 in
      let (c4, r4) = add_if_nil (s.db_password == "postgres") _ _ r3 in
      let (c5, r5) =
        add_if_nil (s.minio_access_key == "minioadmin" || s.minio_secret_key == "minioadmin") _ _
          r4 in
      let (c6, r6) = add_if_nil (unreachable_endpoint s.minio) _ _ r5 in
      let (c7, r7) = add_if_nil (insecure_endpoint s.minio) _ _ r6 in
      endpoint_url-https s.minio low c7

  enforced-https :
      (t : Settings)
      → (s.environment == "production") ≡ true
      → enforce_production_security s ≡ ok t
      → starts_with "https://" (endpoint_url t.minio true) ≡ true
  unfolding enforce_production_security
  enforced-https t production won =
      let (same, clean) = no_errors_nil s t (production_errors s) (rw production at won) in
      rw (← same) (clean-https clean)

validated-https :
    (s t : Settings) (key samesite : Result String)
    → (s.environment == "production") ≡ true
    → lower s.minio.external_endpoint ≡ s.minio.external_endpoint
    → validated s key samesite ≡ ok t
    → starts_with "https://" (endpoint_url t.minio true) ≡ true
unfolding validated
validated-https s t (ok key) (ok samesite) production low won =
    enforced-https (record s { jwt_security_key = key; cookie_samesite = samesite }) low t
      production won
validated-https s t (ok key) (err e) production low won = absurd (cc)
validated-https s t (err e) samesite production low won = absurd (cc)

-- With the settings that the validators accept in production, where the external endpoint of the
-- object store is in lower case, the URL that the storage client builds for browsers begins with
-- https://, whether the endpoint names its scheme or one of the two flags chooses it.
pub validate-endpoint_url :
    (s t : Settings)
    → (s.environment == "production") ≡ true
    → lower s.minio.external_endpoint ≡ s.minio.external_endpoint
    → validate s ≡ ok t
    → starts_with "https://" (endpoint_url t.minio true) ≡ true
unfolding validate
validate-endpoint_url s t production low won =
    validated-https s t (check_default_key s.jwt_security_key)
      (validate_cookie_samesite s.cookie_samesite) production low won
