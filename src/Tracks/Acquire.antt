-- ===== src/Tracks/Acquire.antt =====
-- `acquire`, as a user and the broker see it: what is published, what is refused, and that a second
-- request starts nothing.
use fuze.Prelude.{
  String, ◌≡◌, refl, ◌∙◌, ap, Bool, true, false, ◌&&◌, not, Option, none, some, List, [], ◌∷◌, ◌++◌,
  arith, ◌==◌, string_eq, if◌then◌else◌,
}
use fuze.Prelude.Texts.{is_empty}
use fuze.Core.Errors.{Error}
use fuze.Core.Result.{Result, ok, err}
use fuze.Database.Tables.{Db, Message}
use fuze.Database.Exec.{Exec, raise, raise_if, lift, or_raise, ◌>>=◌}
use fuze.Database.Quiet.{Quiet, Quiet-lift, Quiet-raise_if, Quiet-or_raise, quiet-bind}
use fuze.Tracks.Models.{Track, TrackSource, source_eq}
use fuze.Tracks.Rows.{TrackValues}
use fuze.Tracks.Repository.{queue_existing, queue_or_rollback, upsert_and_queue}
use fuze.Tracks.Steps.{insert_track-found}
use fuze.Tracks.Service.{
  Outside, AcquireResult, provider_of, fetched, validate_item, item_values, enqueue_if,
  acquire_existing, acquire_new, acquire_found, acquire, canonical, is_enabled,
}

-- what a request that ended so has published: one message, for the row that it returns and with its
-- task id, exactly when the result says that the job is new
abbrev pub published : Outside → List Message → Result AcquireResult → List Message
published o before (ok r) =
    if r.newly_queued
    then before ++ record { track_id = r.track.id; task_id = some o.task_id } ∷ []
    else before
published o before (err _) = before

-- a method that publishes just what its result says
record Publishes (o : Outside) (m : Exec AcquireResult) : Type 0 where
  at : (d : Db) → (m d).1.messages ≡ published o d.messages (m d).0

module _ (o : Outside) where
  Publishes-bind :
      {A : Type 0} (m : Exec A) (f : A → Exec AcquireResult)
      → Quiet m
      → ((a : A) → Publishes o (f a))
      → Publishes o (m >>= f)
  Publishes-bind m f quiet rest = record {
    at =
        quiet-bind (λ d out. out.1.messages ≡ published o d.messages out.0) m f quiet
          (λ e d d' same. same)
          (λ a d d' same. (rest a).at d' ∙ ap (λ before. published o before (f a d').0) same);
  }

  Publishes-raise : (e : Error) → Publishes o (raise e)
  Publishes-raise e = record { at = λ d. refl }

  enqueue_if-Publishes :
      (track : Track) (should : Bool) → Publishes o (enqueue_if o (track, should))
  unfolding enqueue_if
  enqueue_if-Publishes track true = record { at = λ d. ground arith }
  enqueue_if-Publishes track false = record { at = λ d. refl }

  acquire_existing-Publishes :
      (track : Track) (should : Bool) → Publishes o (acquire_existing o (track, should))
  unfolding acquire_existing
  acquire_existing-Publishes track true = enqueue_if-Publishes track true
  acquire_existing-Publishes track false = record { at = λ d. ground arith }

  upsert_and_queue-Quiet :
      (values : TrackValues) → Quiet (upsert_and_queue o.max_attempts o.now values)
  unfolding upsert_and_queue
  upsert_and_queue-Quiet values = record {
    at = λ d.
        let (t, found) = insert_track-found d.sequence values d.current.tracks in rw found refl;
  }

  queue_or_rollback-messages :
      (source : TrackSource) (canonical_id : String) (found : Option Track) (d : Db)
      → (queue_or_rollback o.max_attempts o.now source canonical_id found d).1.messages ≡ d.messages
  unfolding queue_or_rollback
  queue_or_rollback-messages source canonical_id none d = refl
  queue_or_rollback-messages source canonical_id (some t) d = refl

  queue_existing-Quiet :
      (source : TrackSource) (canonical_id : String)
      → Quiet (queue_existing o.max_attempts o.now source canonical_id)
  unfolding queue_existing
  queue_existing-Quiet source canonical_id = record {
    at = λ d. queue_or_rollback-messages source canonical_id _ d;
  }

  acquire_new-Publishes :
      (source : TrackSource) (canonical_id : String)
      → Publishes o (acquire_new o source canonical_id)
  unfolding acquire_new
  acquire_new-Publishes source canonical_id =
      Publishes-bind
        (raise_if (o.enforce_config && not (is_enabled o.config.providers source))
          (Error.track_capability_disabled (some "provider_disabled")))
        _ (Quiet-raise_if _ _)
        λ _.
          Publishes-bind
            (raise_if (source == TrackSource.spotify)
              (Error.invalid_track_source (some "spotify_is_external_only")))
            _ (Quiet-raise_if _ _)
            λ _.
              Publishes-bind (lift (fetched (o.provider_get source canonical_id))) _ (Quiet-lift _)
                λ i. Publishes-bind (lift (validate_item o.max_duration_ms i)) _ (Quiet-lift _) λ _.
                  Publishes-bind (upsert_and_queue o.max_attempts o.now (item_values source i)) _
                    (upsert_and_queue-Quiet (item_values source i))
                    λ queued. enqueue_if-Publishes queued.0 queued.1

  acquire_found-Publishes :
      (source : TrackSource) (canonical_id : String) (existing : Option Track × Bool)
      → Publishes o (acquire_found o source canonical_id existing)
  unfolding acquire_found
  acquire_found-Publishes source canonical_id (some t, should) = acquire_existing-Publishes t should
  acquire_found-Publishes source canonical_id (none, should) =
      acquire_new-Publishes source canonical_id

  acquire-Publishes : (source source_id : String) → Publishes o (acquire o source source_id)
  unfolding acquire
  acquire-Publishes source source_id =
      Publishes-bind
        (raise_if (not o.config.features.playback)
          (Error.track_capability_disabled (some "playback_disabled")))
        _ (Quiet-raise_if _ _)
        λ _.
          Publishes-bind
            (or_raise (provider_of source) (Error.invalid_track_source (some "unsupported_source")))
            _ (Quiet-or_raise _ _)
            λ provider.
              Publishes-bind
                (raise_if (is_empty (canonical o provider source_id))
                  (Error.invalid_track_source (some "invalid_source_id")))
                _ (Quiet-raise_if _ _)
                λ _.
                  Publishes-bind
                    (queue_existing o.max_attempts o.now provider (canonical o provider source_id))
                    _ (queue_existing-Quiet provider (canonical o provider source_id))
                    λ existing.
                      acquire_found-Publishes provider (canonical o provider source_id) existing

-- A request publishes one message, for the row that it returns and with its task id, when it
-- queues the job, and nothing otherwise: not when the job is queued already, nor on any error.
pub messages-acquire :
    (o : Outside) (source source_id : String) (d : Db)
    → (acquire o source source_id d).1.messages
      ≡ published o d.messages (acquire o source source_id d).0
messages-acquire o source source_id d = (acquire-Publishes o source source_id).at d
