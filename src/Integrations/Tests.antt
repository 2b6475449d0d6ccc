-- ===== src/Integrations/Tests.antt =====
-- A search that Spotify refuses, and the calls after it.
use fuze.Prelude.{ℕ, ◌≡◌, refl, none, some, string_eq, nat_eq}
use fuze.Prelude.Int.{pos}
use fuze.Integrations.Spotify.{Failure, Answer, SpotifyClient, Response, Outside, search}

abbrev outside : {A : Type 0} → ℕ → Response A → Outside A
outside started answer = record {
  started = started;
  asked_token = started;
  asked_again = started;
  refused_at = started;
  digest = λ id secret. id;
  authenticate = λ id secret. some ("token", 3600);
  get = λ token. some answer;
  default_id = "id";
  default_secret = "secret";
}

abbrev full : {A : Type 0} → Response A
full = record { status_code = 429; retry_after = some (some (pos 30)); reason = none; body = none }

abbrev client : SpotifyClient
client = record { token = none; retry_after_until = 0 }

after : (search (outside 100 full) "" "" client).0 ≡ Answer.failed Failure.rate_limited
unfolding search
after = refl

until : (search (outside 100 full) "" "" client).1.retry_after_until ≡ 130
unfolding search
until = refl
