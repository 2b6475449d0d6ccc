-- ===== src/Database/Tables.antt =====
-- The tables of the database, and a session's view of them. A session reads and writes `current`;
-- `commit` makes that the committed state, and `rollback` goes back to it. Identifiers are drawn
-- from a sequence, which no rollback resets. `messages` is what was published to the Celery broker,
-- the oldest first.
use fuze.Prelude.{ℕ, String, List, Option}
use fuze.Users.Models.{User}
use fuze.Auth.Models.{AccessKey, AuthSession}
use fuze.Tracks.Models.{Track}
use fuze.Playlists.Models.{Playlist, PlaylistItem}
use fuze.Admin.Models.{InstanceSettings, InstanceSecret, InstanceSettingsAudit}

pub record Tables : Type 0 where
  pub users : List User
  pub access_keys : List AccessKey
  pub auth_sessions : List AuthSession
  pub tracks : List Track
  pub playlists : List Playlist
  pub playlist_items : List PlaylistItem
  pub instance_settings : Option InstanceSettings
  pub instance_secrets : List InstanceSecret
  pub audits : List InstanceSettingsAudit

-- a `tracks.download` task in the broker's queue: its argument, and the task id where one was given
pub record Message : Type 0 where
  pub track_id : ℕ
  pub task_id : Option String

pub record Db : Type 0 where
  pub committed : Tables
  pub current : Tables
  pub sequence : ℕ
  pub messages : List Message
