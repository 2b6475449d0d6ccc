-- ===== src/Fixtures.antt =====
-- What the tests of the components share: a database, a configuration and stand-ins for the libraries.
use fuze.Prelude.{ℕ, true, false, none, some, [], ◌==◌, string_eq}
use fuze.Core.Config.{AuthMode, FuzeConfig, UserRole}
use fuze.Database.Tables.{Tables, Db}
use fuze.Tracks.Models.{Track, TrackSource, TrackDownloadStatus}
use fuze.Users.Models.{User}
use fuze.Users.Service.{Crypto}

abbrev pub no_rows : Tables
no_rows = record {
  users = [];
  access_keys = [];
  auth_sessions = [];
  tracks = [];
  playlists = [];
  playlist_items = [];
  instance_settings = none;
  instance_secrets = [];
  audits = [];
}

-- a database between two requests
abbrev pub settled_db : ℕ → Tables → Db
settled_db next s = record { committed = s; current = s; sequence = next; messages = [] }

abbrev pub config : FuzeConfig
config = record {
  instance_name = "Fuze";
  auth = record { mode = AuthMode.both; registration = true };
  features = record { playback = true };
  providers = record { youtube = true; yandex = false; spotify = false; spotify_market = "US" };
}

-- the identity in place of Argon2 and SHA-256
abbrev pub crypto : Crypto
crypto = record { hash = λ s. s; verify = λ plain hashed. plain == hashed; digest = λ s. s }

abbrev pub admin : User
admin = record {
  id = 1;
  role = UserRole.admin;
  email = some "root@fuze";
  name = "Root";
  password = some "secret-1";
  is_active = true;
}

abbrev pub listener : User
listener = record {
  id = 2;
  role = UserRole.user;
  email = some "ann@fuze";
  name = "Ann";
  password = some "secret-2";
  is_active = true;
}

abbrev pub stranger : User
stranger = record listener { id = 3; email = some "eve@fuze"; name = "Eve" }

-- a track that nobody requested yet
abbrev pub track : Track
track = record {
  id = 1;
  title = "Song";
  artist = "Band";
  album = none;
  release_year = none;
  duration_ms = none;
  cover_url = none;
  source = TrackSource.youtube;
  source_id = "abcdefghijk";
  yt_url = none;
  storage_key = none;
  download_status = TrackDownloadStatus.not_requested;
  download_attempts = 0;
  download_error_code = none;
  download_error_message = none;
  download_task_id = none;
  download_requested_at = none;
  download_started_at = none;
  download_finished_at = none;
  download_lease_expires_at = none;
}
