-- ===== src/Core/Tests.antt =====
-- Requests that the rate limit counts, on a server that holds one number for each key.
use fuze.Prelude.{ltb, false, ℕ, ◌≡◌, refl, ◌≤◌, ◌-◌, suc, String, true, none, some, [], ◌∷◌, arith}
use fuze.Fixtures.{config}
use fuze.Prelude.Texts.{strip, strip_left, strip_right, upper, count_chars, is_alpha}
use fuze.Core.Config.{
  FuzeConfig, validate_config, normalize_market, normalize_instance_name, is_valid_auth,
}
use fuze.Core.Config.Stored.{validate_config_again}
use fuze.Core.RateLimit.{
  Identity, Request, RateKey, Redis, identity, call, count_request, verdict, fixed_window,
}
use fuze.Core.RateLimit.Quota.{Counts, IsWait, limit_of, served, call-IsWait, served-bound}

-- a server that is asked for one key
-- EXPIRE on a key: what is left of its count at the end of the window
abbrev kept_past : ℕ → ℕ → ℕ → ℕ
kept_past window ttl n = elim (ltb window ttl) [ true ↦ n | false ↦ 0 ]

abbrev server : Redis ℕ
server = record {
  is_up = λ _. true;
  incr = λ _ n. (suc n, suc n);
  expire = λ _ ttl n. kept_past 60 ttl n;
}

server_counts : Counts server 60
server_counts = record {
  held = λ _ n. n;
  incr_returns = λ _ _. refl;
  incr_holds = λ _ _. refl;
  expire_holds = λ _ ttl n long. ground (arith, long);
}

abbrev digest : Identity → String
digest (Identity.user _) = "user"
digest (Identity.ip host) = host

abbrev request : Request
request = record { user_id = none; host = some "10.0.0.1" }

abbrev key : RateKey
key = record { scope = "auth"; client_key = "10.0.0.1"; bucket = 2 }

three_served :
    served server digest
      (limit_of "auth" 2 60)
      ((request, 130) ∷ (request, 131) ∷ (request, 132) ∷ [])
      0
    ≡ 2
unfolding served call count_request verdict fixed_window
three_served = refl

served-bound_example :
    served server digest
      (limit_of "auth" 2 60)
      ((request, 130) ∷ (request, 131) ∷ (request, 132) ∷ [])
      0
    ≤ 2 - server_counts.held key 0
unfolding identity
served-bound_example =
    served-bound server digest 60 server_counts "auth" 2 key
      ((request, 130) ∷ (request, 131) ∷ (request, 132) ∷ []) 0 (omega arith) (omega arith)
      (refl, (refl, (refl, tt)))

call-IsWait_example : IsWait 60 130 (call server digest true (limit_of "auth" 2 60) request 130 2).0
call-IsWait_example =
    call-IsWait server digest true "auth" 2 60 request 130 2 (omega arith) (omega arith)

-- a configuration with a market in small letters, and as it is stored
abbrev typed : FuzeConfig
typed = record config { providers = record config.providers { spotify_market = " us" } }

typed_accepted : validate_config typed ≡ some config
unfolding validate_config normalize_market normalize_instance_name is_valid_auth strip strip_left
    strip_right upper count_chars is_alpha
typed_accepted = refl

validate_config_again_example : validate_config config ≡ some config
validate_config_again_example = validate_config_again typed config typed_accepted
