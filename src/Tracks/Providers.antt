-- ===== src/Tracks/Providers.antt =====
-- modules/tracks/providers.py: the providers of metadata and the cached search. What the third-party
-- clients answer, `urlparse`, the digest and the reads of the cache are arguments.
pub mod Cached
pub mod Unlock
use Prim.Native.Char.{Char, code}
use Prim.Native.String
use fuze.Prelude.{
  ℕ, ◌+◌, ◌/◌, String, Bool, true, false, not, ◌&&◌, ◌||◌, Option, none, some, List, [], ◌∷◌, leb,
  ◌==◌, nat_beq, nat_eq, string_eq, if◌then◌else◌,
}
use fuze.Prelude.Int.{ℤ, pos}
use fuze.Prelude.Texts.{
  count_chars, is_empty, text_or, join, is_space, strip_left, lower, trim_left, trim_right,
}
use fuze.Core.Config.{ProvidersConfig}
use fuze.Integrations.Spotify.{Failure, Answer, MappedTrack}
use fuze.Tracks.Models.{TrackSource, source_eq}
use fuze.Tracks.Processor.{source_value}
use fuze.Tracks.Service.{SearchItem, Fetched}

abbrev pub is_alnum : Char → Bool
is_alnum c =
    (leb b'0' (code c) && leb (code c) b'9')
    || (leb b'A' (code c) && leb (code c) b'Z')
    || (leb b'a' (code c) && leb (code c) b'z')

-- `[\w-]`, within ASCII
abbrev pub is_video_char : Char → Bool
is_video_char c = is_alnum c || (nat_beq (code c) b'_' || nat_beq (code c) b'-')

-- `[A-Za-z0-9:_-]`
abbrev pub is_yandex_char : Char → Bool
is_yandex_char c = is_video_char c || nat_beq (code c) b':'

unfoldable pub all_chars : (Char → Bool) → String → Bool
all_chars p String.[] = true
all_chars p (String.◌∷◌ c s) = p c && all_chars p s

unfoldable pub is_video_id : String → Bool
unfolding all_chars count_chars
is_video_id s = all_chars is_video_char s && count_chars s == 11

-- what `urlparse` and `parse_qs` find: the host, the path and the values of `v`
pub record ParsedUrl : Type 0 where
  pub hostname : Option String
  pub path : String
  pub v : List String

abbrev pub first_or_empty : List String → String
first_or_empty [] = ""
first_or_empty (s ∷ _) = s

abbrev pub is_slash : Char → Bool
is_slash c = nat_beq (code c) b'/'

abbrev pub is_short_host : Option String → Bool
is_short_host none = false
is_short_host (some h) = h == "youtu.be"

unfoldable pub url_candidate : ParsedUrl → String
unfolding trim_left trim_right
url_candidate u =
    if is_short_host u.hostname
    then trim_right is_slash (trim_left is_slash u.path)
    else first_or_empty u.v

unfoldable pub youtube_id : (String → ParsedUrl) → String → String
unfolding is_video_id url_candidate
youtube_id urlparse value =
    if is_video_id value
    then value
    else let candidate = url_candidate (urlparse value) in
      if is_video_id candidate then candidate else ""

-- `VideoInfo`; `duration_ms` is `int(video.duration * 1000)`
pub record Video : Type 0 where
  pub url : String
  pub title : String
  pub uploader : Option String
  pub duration_ms : ℕ
  pub thumbnail : Option String

unfoldable pub video_item : (String → ParsedUrl) → Video → SearchItem
unfolding youtube_id join
video_item urlparse v =
    let source_id = youtube_id urlparse v.url in
    record {
      source_id = source_id;
      title = v.title;
      artist = text_or v.uploader "Unknown";
      album = none;
      year = none;
      duration_ms = some (pos v.duration_ms);
      cover_url = v.thumbnail;
      external_url = some (join "https://www.youtube.com/watch?v=" source_id);
    }

-- `YouTubeProvider.get`; `info` is none where the client raises
unfoldable pub youtube_get : (String → ParsedUrl) → (String → Option Video) → String → Fetched
unfolding video_item youtube_id join
youtube_get urlparse info value =
    let source_id = youtube_id urlparse value in
    if is_empty source_id
    then Fetched.invalid_source "invalid_youtube_video_id"
    else elim (info (join "https://www.youtube.com/watch?v=" source_id)) [
      | none ↦ Fetched.unavailable
      | some v ↦ Fetched.item (video_item urlparse v)
    ]

-- a track of Yandex, with the name of its first artist, its first album and the cover's URL
pub record YandexTrack : Type 0 where
  pub id : String
  pub title : String
  pub artist : Option String
  pub album : Option (String × Option ℤ)
  pub duration_ms : Option ℤ
  pub cover_url : Option String

-- how the client of Yandex answers: without a credential, with an error, or with the tracks
pub data YandexAnswer : Type 0 where
  no_credential broken : YandexAnswer
  tracks : List YandexTrack → YandexAnswer

abbrev pub artist_or_unknown : Option String → String
artist_or_unknown none = "Unknown"
artist_or_unknown (some name) = name

unfoldable pub yandex_item : YandexTrack → SearchItem
yandex_item t = record {
  source_id = t.id;
  title = t.title;
  artist = artist_or_unknown t.artist;
  album = elim t.album [ none ↦ none | some (title, year) ↦ some title ];
  year = elim t.album [ none ↦ none | some (title, year) ↦ year ];
  duration_ms = t.duration_ms;
  cover_url = t.cover_url;
  external_url = none;
}

unfoldable pub is_yandex_id : String → Bool
unfolding all_chars count_chars
is_yandex_id s = all_chars is_yandex_char s && (leb 1 (count_chars s) && leb (count_chars s) 128)

unfoldable pub fetched_yandex : YandexAnswer → Fetched
unfolding yandex_item
fetched_yandex YandexAnswer.no_credential = Fetched.not_found "Yandex credential is not configured"
fetched_yandex YandexAnswer.broken = Fetched.unavailable
fetched_yandex (YandexAnswer.tracks []) = Fetched.not_found "Yandex track not found"
fetched_yandex (YandexAnswer.tracks (t ∷ _)) = Fetched.item (yandex_item t)

-- `YandexProvider.get`
unfoldable pub yandex_get : (String → YandexAnswer) → String → Fetched
unfolding is_yandex_id fetched_yandex
yandex_get answer source_id =
    if is_yandex_id source_id
    then fetched_yandex (answer source_id)
    else Fetched.invalid_source "invalid_yandex_track_id"

unfoldable pub spotify_item : MappedTrack → SearchItem
spotify_item t = record {
  source_id = t.source_id;
  title = t.title;
  artist = t.artist;
  album = t.album;
  year = elim t.year [ none ↦ none | some y ↦ some (pos y) ];
  duration_ms = t.duration_ms;
  cover_url = t.cover_url;
  external_url = some t.external_url;
}

-- `message` is the text of a ValueError
unfoldable pub fetched_spotify : String → Answer MappedTrack → Fetched
unfolding spotify_item
fetched_spotify message (Answer.found t) = Fetched.item (spotify_item t)
fetched_spotify message (Answer.failed Failure.value_error) = Fetched.not_found message
fetched_spotify message (Answer.failed _) = Fetched.unavailable

unfoldable pub is_spotify_id : String → Bool
unfolding all_chars count_chars
is_spotify_id s = all_chars is_alnum s && count_chars s == 22

-- `SpotifyProvider.get`
unfoldable pub spotify_get : String → (String → Answer MappedTrack) → String → Fetched
unfolding is_spotify_id fetched_spotify
spotify_get message answer source_id =
    if is_spotify_id source_id
    then fetched_spotify message (answer source_id)
    else Fetched.not_found "Invalid Spotify track ID"

-- `" ".join(text.split())`, where each run of white space but those at the ends is one space
unfoldable pub squeeze : String → String
unfolding strip_left
squeeze String.[] = ""
squeeze (String.◌∷◌ c s) =
    let rest = squeeze s in
    if is_space c
    then (if is_empty rest then "" else String.◌∷◌ " " (strip_left rest))
    else String.◌∷◌ c rest

unfoldable pub cache_key : (String → String) → TrackSource → String → String → String
unfolding squeeze strip_left lower join
cache_key digest source query market = join "track_search:v2:" (
    join (source_value source)
      (join ":" (join market (join ":" (digest (strip_left (squeeze (lower query))))))))

unfoldable pub market_of : ProvidersConfig → TrackSource → String
market_of c source = if source == TrackSource.spotify then c.spotify_market else "-"
