-- ===== src/Tracks/Search.antt =====
-- modules/tracks/service.py: `TracksService.search`, over the results of `search_cached`.
use fuze.Prelude.{
  ℕ, zero, suc, String, Bool, false, not, Option, none, some, List, [], ◌∷◌, ◌++◌, map, take,
  get_elem?, ◌==◌, if◌then◌else◌,
}
use fuze.Prelude.Texts.{join}
use fuze.Core.Config.{FuzeConfig, ProvidersConfig}
use fuze.Database.Exec.{Exec, pure, ◌>>=◌}
use fuze.Database.Sql.{select_one}
use fuze.Tracks.Models.{Track, TrackSource, TrackDownloadStatus, source_eq, status_eq}
use fuze.Tracks.Rows.{has_source, has_status}
use fuze.Tracks.Repository.{find_by_sources}
use fuze.Tracks.Service.{SearchItem, is_enabled}
use fuze.Tracks.Processor.{source_value}
use fuze.Tracks.Streams.{status_value}
use fuze.Tracks.Providers.Cached.{ProviderResult, ProviderStatus}

-- one entry of `rows`
pub record SearchRow : Type 0 where
  pub key : String
  pub track_id : Option ℕ
  pub source : String
  pub capability : String
  pub availability : String
  pub item : SearchItem
  pub already_downloaded : Bool

pub record SearchResult : Type 0 where
  pub rows : List SearchRow
  pub providers : List (String × ProviderStatus × Bool)
  pub spotify_search_url : Option String

-- `names`
abbrev pub names : List TrackSource
names = TrackSource.yandex ∷ TrackSource.spotify ∷ TrackSource.youtube ∷ []

-- a provider that is switched off is not asked
unfoldable pub response :
    Bool → ProvidersConfig → (TrackSource → ProviderResult) → TrackSource → ProviderResult
response enforce_config config search_cached source =
    if not enforce_config
    then search_cached source
    else if is_enabled config source
    then search_cached source
    else record { items = []; status = ProviderStatus.disabled; cached = false }

-- `response.items[:10]`
abbrev pub first_items : ProviderResult → List SearchItem
first_items r = take 10 r.items

abbrev pub keys_for : TrackSource → List SearchItem → List (TrackSource × String)
keys_for source = map λ i. (source, i.source_id)

abbrev pub all_keys :
    (TrackSource → List SearchItem) → List TrackSource → List (TrackSource × String)
all_keys items [] = []
all_keys items (s ∷ ss) = keys_for s (items s) ++ all_keys items ss

abbrev pub capability_of : Bool → TrackSource → String
capability_of playback source =
    if not playback
    then "catalog"
    else if source == TrackSource.spotify
    then "external"
    else "acquire"

abbrev pub availability_of : Option Track → String
availability_of none = "remote"
availability_of (some t) = status_value t.download_status

abbrev pub is_downloaded : Option Track → Bool
is_downloaded none = false
is_downloaded (some t) = has_status TrackDownloadStatus.ready t

abbrev pub id_of : Option Track → Option ℕ
id_of none = none
id_of (some t) = some t.id

unfoldable pub search_row : Bool → List Track → TrackSource → SearchItem → SearchRow
unfolding select_one join
search_row playback existing source i =
    let track = select_one (has_source source i.source_id) existing in
    record {
      key = join (source_value source) (join ":" i.source_id);
      track_id = id_of track;
      source = source_value source;
      capability = capability_of playback source;
      availability = availability_of track;
      item = i;
      already_downloaded = is_downloaded track;
    }

-- the rows of one rank, in the order of the names
unfoldable pub at_rank : (TrackSource → List SearchRow) → ℕ → List TrackSource → List SearchRow
at_rank rows rank [] = []
at_rank rows rank (s ∷ ss) =
    let rest = at_rank rows rank ss in
    elim (get_elem? (rows s) rank) [ some row ↦ row ∷ rest | none ↦ rest ]

-- the ranks from `rank` on, `count` of them
unfoldable pub interleave : (TrackSource → List SearchRow) → ℕ → ℕ → List SearchRow
unfolding at_rank
interleave rows zero rank = []
interleave rows (suc count) rank = at_rank rows rank names ++ interleave rows count (suc rank)

abbrev pub statuses :
    (TrackSource → ProviderResult) → List TrackSource → List (String × ProviderStatus × Bool)
statuses results [] = []
statuses results (s ∷ ss) =
    (source_value s, (results s).status, (results s).cached) ∷ statuses results ss

-- `search_cached` and `spotify_search_url` are given for the query
unfoldable pub search :
    FuzeConfig → Bool → (TrackSource → ProviderResult) → String → Exec SearchResult
unfolding response search_row interleave find_by_sources
search config enforce_config search_cached spotify_url =
    let results = response enforce_config config.providers search_cached in
    let items = λ (s : TrackSource). first_items (results s) in
    (do
      existing ← find_by_sources (all_keys items names)
      pure (record {
        rows =
            interleave (λ s. map (search_row config.features.playback existing s) (items s)) 10 0;
        providers = statuses results names;
        spotify_search_url = if config.providers.spotify then some spotify_url else none;
      }))
