-- ===== src/Tracks/SearchTests.antt =====
-- Searches with the providers' answers at hand, and a search that takes the lock of the cache.
use fuze.Prelude.{String, ◌≡◌, refl, true, false, none, List, [], ◌∷◌}
use fuze.Core.Result.{ok}
use fuze.Database.Sql.{select_where}
use fuze.Integrations.Cache.{Cache}
use fuze.Integrations.Cache.Owner.{holds}
use fuze.Tracks.Models.{TrackSource}
use fuze.Tracks.Service.{SearchItem}
use fuze.Tracks.Search.{SearchRow, search}
use fuze.Tracks.Providers.{cache_key}
use fuze.Tracks.Providers.Cached.{
  ProviderStatus, ProviderResult, Read, Locking, Asked, Searching, Command, search_cached, perform,
}
use fuze.Tracks.Providers.Unlock.{Run, own_answer, search_cached-free}
use fuze.Fixtures.{no_rows, settled_db, config}

abbrev item : String → SearchItem
item source_id = record {
  source_id = source_id;
  title = "Song";
  artist = "Band";
  album = none;
  year = none;
  duration_ms = none;
  cover_url = none;
  external_url = none;
}

abbrev answers : TrackSource → ProviderResult
answers TrackSource.yandex = record {
  items = item "y1" ∷ item "y2" ∷ [];
  status = ProviderStatus.ok;
  cached = false;
}
answers TrackSource.spotify = record {
  items = [];
  status = ProviderStatus.unavailable;
  cached = false;
}
answers TrackSource.youtube = record {
  items = item "v1" ∷ [];
  status = ProviderStatus.ok;
  cached = true;
}

abbrev row : String → String → SearchItem → SearchRow
row key source i = record {
  key = key;
  track_id = none;
  source = source;
  capability = "acquire";
  availability = "remote";
  item = i;
  already_downloaded = false;
}

interleaved :
    (search config false answers "url" (settled_db 1 no_rows)).0
    ≡ ok (record {
      rows =
          row "yandex:y1" "yandex" (item "y1")
          ∷ row "youtube:v1" "youtube" (item "v1")
          ∷ row "yandex:y2" "yandex" (item "y2")
          ∷ [];
      providers =
          ("yandex", ProviderStatus.ok, false)
          ∷ ("spotify", ProviderStatus.unavailable, false)
          ∷ ("youtube", ProviderStatus.ok, true)
          ∷ [];
      spotify_search_url = none;
    })
unfolding search select_where
interleaved = refl

normalized :
    cache_key (λ s. s) TrackSource.youtube "  One   TWO " "-" ≡ "track_search:v2:youtube:-:one two"
unfolding cache_key
normalized = refl

abbrev asking : Searching
asking = record {
  key = "k";
  first = Read.miss;
  locking = Locking.acquired "mine";
  polls = [];
  asked = Asked.answered [];
  cache_ttl_seconds = 900;
}

abbrev locked : Cache (List SearchItem)
locked = record { entries = []; locks = ("k", "mine") ∷ [] }

abbrev stored : Cache (List SearchItem)
stored = record { entries = ("k", []) ∷ []; locks = [] }

commands : (search_cached asking).1 ≡ Command.set "k" [] 120 ∷ Command.release "k" "mine" ∷ []
unfolding search_cached
commands = refl

run : Run "k" "mine" (search_cached asking).1 locked stored
unfolding search_cached perform
run = Run.own _ _ _ _ (Run.own _ _ _ _ (Run.done stored))

search_cached-free_example :
    ((search_cached asking).0 ≡ own_answer asking.asked) × (holds "k" "mine" stored ≡ false)
search_cached-free_example = search_cached-free asking "mine" locked stored refl refl run
