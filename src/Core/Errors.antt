-- ===== src/Core/Errors.antt =====
-- The exceptions of core/exceptions.py, modules/tracks/errors.py and modules/playlists/errors.py,
-- with FastAPI's HTTPException and the two that the database and the runtime raise.
use fuze.Prelude.{ℕ, String, Option}
use fuze.Prelude.Texts.{text_or}

pub data Error : Type 0 where
  user_already_exists invalid_auth_credentials : Error
  capability_disabled : String → Error
  track_not_found track_not_ready track_state_conflict invalid_track_source : Option String → Error
  ambiguous_track_match track_dependency_unavailable track_capability_disabled :
      Option String → Error
  playlist_not_found playlist_item_not_found playlist_track_not_found playlist_conflict : Error
  invalid_playlist_order : Error
  http_exception : ℕ → String → Error
  integrity_error runtime_error value_error : Error

-- `status_code` of each class; what is no domain error is answered by the 500 of
-- `unhandled_exception_handler`.
unfoldable pub status_code : Error → ℕ
status_code Error.user_already_exists = 409
status_code Error.invalid_auth_credentials = 401
status_code (Error.capability_disabled _) = 403
status_code (Error.track_not_found _) = 404
status_code (Error.track_not_ready _) = 409
status_code (Error.track_state_conflict _) = 409
status_code (Error.invalid_track_source _) = 422
status_code (Error.ambiguous_track_match _) = 422
status_code (Error.track_dependency_unavailable _) = 503
status_code (Error.track_capability_disabled _) = 403
status_code Error.playlist_not_found = 404
status_code Error.playlist_item_not_found = 404
status_code Error.playlist_track_not_found = 404
status_code Error.playlist_conflict = 409
status_code Error.invalid_playlist_order = 422
status_code (Error.http_exception code _) = code
status_code _ = 500

-- `self.message = message or self.code` of TrackDomainError.
unfoldable pub track_message : Error → String
track_message (Error.track_not_found m) = text_or m "track_not_found"
track_message (Error.track_not_ready m) = text_or m "track_not_ready"
track_message (Error.track_state_conflict m) = text_or m "track_state_conflict"
track_message (Error.invalid_track_source m) = text_or m "invalid_track_source"
track_message (Error.ambiguous_track_match m) = text_or m "match_ambiguous"
track_message (Error.track_dependency_unavailable m) = text_or m "track_dependency_unavailable"
track_message (Error.track_capability_disabled m) = text_or m "capability_disabled"
track_message _ = "track_error"
