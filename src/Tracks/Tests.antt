-- ===== src/Tracks/Tests.antt =====
-- Runs of the `tracks` component on concrete rows, requests and workers.
use fuze.Prelude.{
  ◌+◌, ◌≤◌, ◌≡◌, refl, true, false, none, some, List, [], ◌∷◌, arith, string_eq, All,
}
use fuze.Core.Config.{AuthMode, FuzeConfig}
use fuze.Core.Result.{ok}
use fuze.Database.Tables.{Tables, Db}
use fuze.Database.Sql.{select_one, exists_row, select_where, update_where}
use fuze.Fixtures.{track}
use fuze.Tracks.Models.{Track, TrackSource, TrackDownloadStatus, source_eq, status_eq}
use fuze.Tracks.Rows.{
  TrackValues, claimable, claim_row, lease_expired, request_forgotten, is_stale, is_exhausted,
}
use fuze.Tracks.Statements.{exhaust_table}
use fuze.Tracks.Repository.{claim_download, mark_ready, mark_failed, requeue_stale}
use fuze.Tracks.Upsert.{queued}
use fuze.Tracks.Steps.{IsSettled, Step, Reach, Reach-IsSettled}
use fuze.Tracks.ById.{row}
use fuze.Tracks.Ownership.{claim_exclusive, stale_worker_silent}
use fuze.Tracks.Recovery.{Fate, meet, requeue_stale-row, requeue_stale_complete}
use fuze.Tracks.Lifecycle.{Lifecycle, status_at}
use fuze.Tracks.Lifecycle.Refinement.{Step-Lifecycle}
use fuze.Tracks.Budget.{Run, attempts, claims, Run-budget}
use fuze.Tracks.Service.{Outside, Fetched, acquire}
use fuze.Tracks.Acquire.{published, messages-acquire}
use fuze.Tracks.Processor.{Pipeline, Stage, media}
use fuze.Tracks.Worker.{download_track}
use fuze.Tracks.Failing.{ended, kept_row}
use fuze.Tracks.Outcome.{may_retry, download_track-end}

abbrev values : TrackValues
values = record {
  title = "Song";
  artist = "Band";
  album = none;
  release_year = none;
  duration_ms = none;
  cover_url = none;
  source = TrackSource.youtube;
  source_id = "abcdefghijk";
  yt_url = none;
}

-- a track whose job waits for the worker of the task "first"
abbrev waiting : Track
waiting = record track {
  download_status = TrackDownloadStatus.queued;
  download_attempts = 1;
  download_task_id = some "first";
  download_requested_at = some 100;
}

-- the same track while a worker downloads it, until the moment 500
abbrev running : Track
running = record waiting {
  download_status = TrackDownloadStatus.downloading;
  download_attempts = 2;
  download_started_at = some 200;
  download_lease_expires_at = some 500;
}

abbrev tables : List Track → Tables
tables ts = record {
  users = [];
  access_keys = [];
  auth_sessions = [];
  tracks = ts;
  playlists = [];
  playlist_items = [];
  instance_settings = none;
  instance_secrets = [];
  audits = [];
}

abbrev store : List Track → Db
store ts = record { committed = tables ts; current = tables ts; sequence = 2; messages = [] }

waiting-IsSettled : IsSettled 3 (store (waiting ∷ []))
unfolding exists_row
waiting-IsSettled = record {
  table = record {
    rows = (
      record {
        stored = refl;
        owned = λ e. refl;
        leased = λ e. absurd (cc);
        explained = λ e. absurd (cc);
        clean = λ e. refl;
        room = λ e. omega arith;
        spent = omega arith;
      },
      tt,
    );
    sources = (refl, tt);
    ids = (refl, tt);
    drawn = (omega arith, tt);
  };
  saved = refl;
}

running-IsSettled : IsSettled 3 (store (running ∷ []))
unfolding exists_row
running-IsSettled = record {
  table = record {
    rows = (
      record {
        stored = refl;
        owned = λ e. refl;
        leased = λ e. refl;
        explained = λ e. absurd (cc);
        clean = λ e. refl;
        room = λ e. absurd (cc);
        spent = omega arith;
      },
      tt,
    );
    sources = (refl, tt);
    ids = (refl, tt);
    drawn = (omega arith, tt);
  };
  saved = refl;
}

-- the database after the worker of "first" has claimed the job
abbrev held : Db
held = (claim_download 200 1 "first" 300 (store (waiting ∷ []))).1

row-found : (t : Track) → t.id ≡ 1 → row 1 (t ∷ []) ≡ some t
unfolding select_one
row-found t e = ground (arith, e)

waiting-claimable : claimable 1 "first" waiting ≡ true
unfolding claimable
waiting-claimable = refl

claimed_first :
    (claim_download 200 1 "first" 300 (store (waiting ∷ []))).0
    ≡ ok (some (claim_row 200 "first" 300 waiting))
unfolding claim_download claim_row claimable select_one
claimed_first = refl

Reach-IsSettled_example : IsSettled 3 (requeue_stale 600 3 held).1
Reach-IsSettled_example = Reach-IsSettled 3 (omega arith) waiting-IsSettled (
    Reach.next (Reach.next Reach.here (Step.claim (store (waiting ∷ [])) 200 1 "first" 300))
      (Step.recover held 600))

claim_exclusive_example : (claim_download 210 1 "second" 300 held).0 ≡ ok none
claim_exclusive_example =
    claim_exclusive 3 (omega arith) (store (waiting ∷ [])) waiting-IsSettled 200 1 "first" 300
      (claim_row 200 "first" 300 waiting) claimed_first 210 "second" 300

stale_worker_silent_example :
    (mark_ready 210 1 "second" "k" "u" held ≡ (ok tt, held))
    × (mark_failed 210 1 "second" "c" "m" held ≡ (ok tt, held))
stale_worker_silent_example =
    stale_worker_silent 3 (omega arith) (store (waiting ∷ [])) waiting-IsSettled 200 1 "first" 300
      (claim_row 200 "first" 300 waiting) claimed_first 210 "second" "k" "u" "c" "m" (λ e. cc)

requeue_stale-row_example :
    row 1 (requeue_stale 600 3 (store (running ∷ []))).1.current.tracks
    ≡ some (meet 600 running Fate.requeued)
requeue_stale-row_example =
    requeue_stale-row 3 600 (store (running ∷ [])) running-IsSettled 1 running
      (row-found running refl)

requeue_stale_complete_example :
    All
      (λ t. (lease_expired 600 t ≡ false) × (request_forgotten 600 t ≡ false))
      (requeue_stale 600 3 (store (running ∷ []))).1.current.tracks
requeue_stale_complete_example =
    requeue_stale_complete 3 600 (store (running ∷ [])) running-IsSettled

recovered_one : (requeue_stale 600 3 (store (running ∷ []))).0 ≡ ok (1 ∷ [])
unfolding requeue_stale select_where is_stale exhaust_table update_where is_exhausted lease_expired
    request_forgotten
recovered_one = refl

Step-Lifecycle_example : Lifecycle (status_at 1 (waiting ∷ [])) (status_at 1 held.current.tracks)
Step-Lifecycle_example =
    Step-Lifecycle 1 3 (Step.claim (store (waiting ∷ [])) 200 1 "first" 300) waiting-IsSettled

Run-budget_example :
    (attempts 1 held.current.tracks
      ≡ attempts 1 (waiting ∷ [])
        + (0 + claims (claim_download 200 1 "first" 300 (store (waiting ∷ []))).0))
    × (attempts 1 (waiting ∷ [])
          + (0 + claims (claim_download 200 1 "first" 300 (store (waiting ∷ []))).0)
        ≤ 3)
Run-budget_example =
    Run-budget 3 1 (omega arith) (store (waiting ∷ [])) waiting-IsSettled
      (Run.claim 200 "first" 300 Run.start)

abbrev config : FuzeConfig
config = record {
  instance_name = "Fuze";
  auth = record { mode = AuthMode.both; registration = true };
  features = record { playback = true };
  providers = record { youtube = true; yandex = false; spotify = false; spotify_market = "US" };
}

abbrev outside : Outside
outside = record {
  config = config;
  enforce_config = true;
  max_attempts = 3;
  max_duration_ms = 600000;
  youtube_id = λ s. s;
  provider_get = λ source id. Fetched.unavailable;
  now = 150;
  task_id = "second";
  broker_up = true;
}

messages-acquire_example :
    (acquire outside "youtube" "abcdefghijk" (store (waiting ∷ []))).1.messages
    ≡ published outside [] (acquire outside "youtube" "abcdefghijk" (store (waiting ∷ []))).0
messages-acquire_example = messages-acquire outside "youtube" "abcdefghijk" (store (waiting ∷ []))

-- a pipeline whose download fails
abbrev broken : Pipeline
broken = record {
  playback = true;
  now = 200;
  lease_seconds = 300;
  resolve = λ t. Stage.done "https://www.youtube.com/watch?v=abcdefghijk";
  download = λ url. Stage.broken "DownloadError";
  upload = λ name. Stage.done tt;
}

download_track-end_example :
    let s = media broken (claim_row 200 "first" 300 waiting) in
    let out = download_track 3 true broken 0 1 "first" (store (waiting ∷ [])) in
    (out.0 ≡ ended 0 (may_retry 3 0 waiting) s)
    × (row 1 out.1.current.tracks
        ≡ some (kept_row 200 (may_retry 3 0 waiting) s (claim_row 200 "first" 300 waiting)))
download_track-end_example =
    download_track-end 3 (omega arith) broken 0 "first" (store (waiting ∷ [])) waiting
      waiting-IsSettled refl (row-found waiting refl) waiting-claimable true
