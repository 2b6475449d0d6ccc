-- ===== src/Tracks/Providers/Cached.antt =====
-- `search_cached` of modules/tracks/providers.py: one provider is asked by one process at a time, and the
-- others wait for its result in the cache. A run is given by what it reads, and yields its commands.
use fuze.Prelude.{ℕ, String, Bool, true, false, List, [], ◌∷◌, ◌++◌}
use fuze.Integrations.Cache.{Cache, cache_set, cache_release_lock}
use fuze.Integrations.Spotify.{Failure}
use fuze.Tracks.Service.{SearchItem}

pub data ProviderStatus : Type 0 where
  ok disabled unavailable rate_limited quota_exceeded : ProviderStatus

pub record ProviderResult : Type 0 where
  pub items : List SearchItem
  pub status : ProviderStatus
  pub cached : Bool

-- a read of the cache
pub data Read : Type 0 where
  hit : List SearchItem → Read
  miss raised : Read

-- `cache_acquire_lock`: with this token, held by another, or an error
pub data Locking : Type 0 where
  acquired : String → Locking
  taken raised : Locking

-- how the provider's search ends: its items, an exception of Spotify, or another one, as a timeout
pub data Asked : Type 0 where
  answered : List SearchItem → Asked
  spotify_error : Failure → Asked
  error : Asked

-- `polls` are the reads until the deadline, 0.05 seconds apart
pub record Searching : Type 0 where
  pub key : String
  pub first : Read
  pub locking : Locking
  pub polls : List Read
  pub asked : Asked
  pub cache_ttl_seconds : ℕ

pub data Command : Type 0 where
  set : String → List SearchItem → ℕ → Command
  release : String → String → Command

abbrev pub fetched_now : List SearchItem → ProviderStatus → ProviderResult
fetched_now items status = record { items = items; status = status; cached = false }

abbrev pub from_the_cache : List SearchItem → ProviderResult
from_the_cache items = record { items = items; status = ProviderStatus.ok; cached = true }

-- `exc.status`
abbrev pub status_of : Failure → ProviderStatus
status_of Failure.unavailable = ProviderStatus.unavailable
status_of Failure.rate_limited = ProviderStatus.rate_limited
status_of Failure.quota_exceeded = ProviderStatus.quota_exceeded
status_of Failure.disabled = ProviderStatus.disabled
status_of Failure.value_error = ProviderStatus.unavailable

-- an empty result is kept for two minutes
abbrev pub ttl_for : ℕ → List SearchItem → ℕ
ttl_for ttl [] = 120
ttl_for ttl (_ ∷ _) = ttl

-- the `try` round the provider
unfoldable pub end_ask : Searching → Asked → ProviderResult × List Command
end_ask s (Asked.answered xs) =
    (fetched_now xs ProviderStatus.ok, Command.set s.key xs (ttl_for s.cache_ttl_seconds xs) ∷ [])
end_ask s (Asked.spotify_error e) = (fetched_now [] (status_of e), [])
end_ask s Asked.error = (fetched_now [] ProviderStatus.unavailable, [])

unfoldable pub ask : Searching → ProviderResult × List Command
unfolding end_ask
ask s = end_ask s s.asked

-- the `finally`
unfoldable pub ask_locked : Searching → String → ProviderResult × List Command
unfolding ask
ask_locked s token = let (r, cs) = ask s in (r, cs ++ Command.release s.key token ∷ [])

-- the loop of a process that does not hold the lock
unfoldable pub wait_for : Searching → List Read → ProviderResult × List Command
unfolding ask
wait_for s [] = ask s
wait_for s (Read.miss ∷ reads) = wait_for s reads
wait_for s (Read.hit xs ∷ reads) = (from_the_cache xs, [])
wait_for s (Read.raised ∷ reads) = ask s

unfoldable pub search_locked : Searching → Locking → ProviderResult × List Command
unfolding ask_locked wait_for
search_locked s (Locking.acquired token) = ask_locked s token
search_locked s Locking.taken = wait_for s s.polls
search_locked s Locking.raised = wait_for s s.polls

unfoldable pub search_first : Searching → Read → ProviderResult × List Command
unfolding search_locked
search_first s (Read.hit xs) = (from_the_cache xs, [])
search_first s _ = search_locked s s.locking

unfoldable pub search_cached : Searching → ProviderResult × List Command
unfolding search_first
search_cached s = search_first s s.first

-- a command on the cache, where it reaches the server
unfoldable pub perform : Command → Cache (List SearchItem) → Cache (List SearchItem)
unfolding cache_set cache_release_lock
perform (Command.set key xs ttl) c = cache_set key xs c
perform (Command.release key token) c = cache_release_lock key token c
