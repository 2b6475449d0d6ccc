-- ===== src/Tracks/Upsert.antt =====
-- `upsert` and `upsert_and_queue` of modules/tracks/repository.py: the row that they end with.
use fuze.Prelude.{ℕ, suc, none, some, string_eq}
use fuze.Database.Tables.{Tables, Db}
use fuze.Database.Sql.{select_one}
use fuze.Tracks.Models.{Track, source_eq}
use fuze.Tracks.Rows.{TrackValues, has_source, new_track}
use fuze.Tracks.Statements.{insert_track, queue_table}

-- the row of the source, or the one that the INSERT adds
abbrev pub found_or_new : TrackValues → Db → Track
found_or_new v d = elim (select_one (has_source v.source v.source_id) d.current.tracks) [
  | some t ↦ t
  | none ↦ new_track d.sequence v
]

-- the database once the INSERT is committed
abbrev pub inserted : TrackValues → Db → Db
inserted v d =
    let after : Tables = record d.current { tracks = insert_track d.sequence v d.current.tracks } in
    record d { current = after; committed = after; sequence = suc d.sequence }

-- the database once the UPDATE on that row is committed with it
abbrev pub queued : ℕ → ℕ → TrackValues → Db → Db
queued max_attempts now v d =
    let ts = insert_track d.sequence v d.current.tracks in
    let after : Tables = record d.current {
      tracks = queue_table max_attempts now v.source v.source_id ts;
    } in
    record d { current = after; committed = after; sequence = suc d.sequence }
