-- ===== src/Tracks/Models.antt =====
-- modules/tracks/models.py: the `tracks` table. A timestamp is a number of seconds.
use fuze.Prelude.{ℕ, String, ◌≡◌, ◌↔◌, Bool, true, Option, arith, Equality, nat_beq}
use fuze.Prelude.Int.{ℤ}

pub data TrackSource : Type 0 where
  yandex spotify youtube : TrackSource

pub data TrackDownloadStatus : Type 0 where
  not_requested queued downloading ready failed : TrackDownloadStatus

abbrev pub source_number : TrackSource → ℕ
source_number TrackSource.yandex = 0
source_number TrackSource.spotify = 1
source_number TrackSource.youtube = 2

abbrev pub source_beq : TrackSource → TrackSource → Bool
source_beq a b = nat_beq (source_number a) (source_number b)

pub source_beq_iff : (a b : TrackSource) → (source_beq a b ≡ true) ↔ (a ≡ b)
source_beq_iff a b = ground arith

instance abbrev pub source_eq : Equality TrackSource
source_eq = record { test = source_beq; test_iff = source_beq_iff }

abbrev pub status_number : TrackDownloadStatus → ℕ
status_number TrackDownloadStatus.not_requested = 0
status_number TrackDownloadStatus.queued = 1
status_number TrackDownloadStatus.downloading = 2
status_number TrackDownloadStatus.ready = 3
status_number TrackDownloadStatus.failed = 4

abbrev pub status_beq : TrackDownloadStatus → TrackDownloadStatus → Bool
status_beq a b = nat_beq (status_number a) (status_number b)

pub status_beq_iff : (a b : TrackDownloadStatus) → (status_beq a b ≡ true) ↔ (a ≡ b)
status_beq_iff a b = ground arith

instance abbrev pub status_eq : Equality TrackDownloadStatus
status_eq = record { test = status_beq; test_iff = status_beq_iff }

pub record Track : Type 0 where
  pub id : ℕ
  pub title : String
  pub artist : String
  pub album : Option String
  pub release_year : Option ℤ
  pub duration_ms : Option ℤ
  pub cover_url : Option String
  pub source : TrackSource
  pub source_id : String
  pub yt_url : Option String
  pub storage_key : Option String
  pub download_status : TrackDownloadStatus
  pub download_attempts : ℕ
  pub download_error_code : Option String
  pub download_error_message : Option String
  pub download_task_id : Option String
  pub download_requested_at : Option ℕ
  pub download_started_at : Option ℕ
  pub download_finished_at : Option ℕ
  pub download_lease_expires_at : Option ℕ
