-- ===== src/Tracks/MatchTests.antt =====
-- A search for the video of a track of Yandex, with two uploads that fit and one that does not.
use fuze.Prelude.{ℕ, String, ◌≡◌, refl, none, some, [], ◌∷◌}
use fuze.Prelude.Int.{pos}
use fuze.Fixtures.{track}
use fuze.Tracks.Models.{Track, TrackSource, TrackDownloadStatus}
use fuze.Tracks.Processor.{Stage}
use fuze.Tracks.Resolve.{Candidate, Searched, Matching, resolve_youtube_url}
use fuze.Tracks.Resolve.Outcome.{Resolved, resolve_youtube_url-Resolved}

abbrev claimed : Track
claimed = record track {
  title = "song";
  artist = "band";
  duration_ms = some (pos 200000);
  source = TrackSource.yandex;
  source_id = "7";
  download_status = TrackDownloadStatus.downloading;
  download_task_id = some "first";
}

abbrev candidate : String → String → ℕ → Candidate
candidate url title duration_ms = record {
  url = url;
  title = title;
  uploader = some "band";
  duration_ms = duration_ms;
}

abbrev matching : Matching
matching = record {
  one = 1000;
  normalize = λ s. s;
  ratio = λ a b. 100;
  cached = none;
  searched = Searched.results (
      candidate "long" "band - song" 300000
      ∷ candidate "first" "band - song" 204000
      ∷ candidate "second" "band - song" 200000
      ∷ []);
}

-- the first of the two that fit, although the last is closer in its duration
chosen : (resolve_youtube_url matching claimed).0 ≡ Stage.done "first"
unfolding resolve_youtube_url
chosen = refl

resolve_youtube_url-Resolved_example :
    Resolved matching claimed (resolve_youtube_url matching claimed)
resolve_youtube_url-Resolved_example = resolve_youtube_url-Resolved matching claimed
