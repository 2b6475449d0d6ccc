-- ===== src/Integrations/Spotify/Window.antt =====
-- The retry window: what a refusal by Spotify's rate limit means for the calls after it.
use fuze.Prelude.{ℕ, ◌+◌, String, Bool, true, false, some, ◌≡◌, ◌≤◌, ◌<◌, ◌==◌, nat_eq, string_eq}
use fuze.Integrations.Spotify.{Failure, Answer, SpotifyClient, Response, Outside, retry_seconds}

abbrev pub is_limit : Failure → Bool
is_limit Failure.rate_limited = true
is_limit Failure.quota_exceeded = true
is_limit _ = false

abbrev pub is_refusal : {A : Type 0} → Answer A → Bool
is_refusal (Answer.found a) = false
is_refusal (Answer.failed e) = is_limit e

module _ {A : Type 0} (o : Outside A) where
  -- how a call that was sent ends: with a new window, or without a refusal and with the window as it was
  pub data Ends (until : ℕ) : Answer A × SpotifyClient → Type 0 where
    refusal :
        (token : String) (r : Response A) (n : ℕ) (e : Failure) (c : SpotifyClient)
        → o.get token ≡ some r
        → (r.status_code == 429) ≡ true
        → retry_seconds o r ≡ some n
        → 1 ≤ n
        → c.retry_after_until ≡ o.refused_at + n
        → is_limit e ≡ true
        → Ends until (Answer.failed e, c)
    other :
        (a : Answer A) (c : SpotifyClient)
        → c.retry_after_until ≡ until
        → is_refusal a ≡ false
        → Ends until (a, c)

-- how a call ends for the retry window of the client `c`
pub data WindowOutcome {A B : Type 0} (o : Outside A) (c : SpotifyClient)
    : Answer B × SpotifyClient → Type 0 where
  waits :
      o.started < c.retry_after_until → WindowOutcome o c (Answer.failed Failure.rate_limited, c)
  refusal :
      (token : String) (r : Response A) (n : ℕ) (e : Failure) (after : SpotifyClient)
      → c.retry_after_until ≤ o.started
      → o.get token ≡ some r
      → (r.status_code == 429) ≡ true
      → retry_seconds o r ≡ some n
      → 1 ≤ n
      → after.retry_after_until ≡ o.refused_at + n
      → is_limit e ≡ true
      → WindowOutcome o c (Answer.failed e, after)
  other :
      (a : Answer B) (after : SpotifyClient)
      → c.retry_after_until ≤ o.started
      → is_refusal a ≡ false
      → after.retry_after_until ≡ c.retry_after_until
      → WindowOutcome o c (a, after)
