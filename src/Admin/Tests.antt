-- ===== src/Admin/Tests.antt =====
-- A change of the settings, and the snapshots before and after it.
use fuze.Admin.Secrecy.{seen, update_hides_values}
use fuze.Prelude.{String, ◌≡◌, refl, false, none, some, [], ◌∷◌}
use fuze.Core.Config.{normalize_instance_name}
use fuze.Prelude.Texts.{strip, count_chars, upper, is_alpha}
use fuze.Core.Result.{ok}
use fuze.Database.Tables.{Db}
use fuze.Admin.Service.{
  CredentialWrite, SettingsWrite, SettingsRead, update, app_config, apply_update, write_credentials,
  has_credentials, store_settings, write_settings, read,
}
use fuze.Database.Sql.{exists_row}
use fuze.Admin.Cache.{empty_cache, get_snapshot, update_invalidate}
use fuze.Admin.Update.{Outcome, Origin, update-Outcome, get_snapshot-Origin}
use fuze.Fixtures.{no_rows, settled_db, config, admin}

abbrev store : Db
store = settled_db 3 (record no_rows {
  users = admin ∷ [];
  instance_settings = some (record { version = 4; settings = config; updated_by = none });
})

abbrev payload : SettingsWrite
payload = record {
  version = 4;
  instance_name = "Home";
  auth = config.auth;
  features = config.features;
  providers = config.providers;
  credentials = none;
}

update-Outcome_example : Outcome store payload 1 (update (λ s. s) payload 1 store)
update-Outcome_example = update-Outcome (λ s. s) payload 1 store

get_snapshot-Origin_example :
    Origin some false 700 store.current empty_cache
      (get_snapshot some false 700 store.current empty_cache).0
get_snapshot-Origin_example = get_snapshot-Origin some false 700 store.current empty_cache

abbrev shown : SettingsRead
shown = record {
  version = 5;
  updated_by = some 1;
  config = record config { instance_name = "Home" };
  credentials =
      ("yandex_token", false)
      ∷ ("spotify_client_id", false)
      ∷ ("spotify_client_secret", false)
      ∷ [];
}

updated_one : (update_invalidate (λ s. s) payload 1 store empty_cache).0 ≡ ok shown
unfolding update_invalidate update app_config apply_update write_credentials has_credentials
    store_settings write_settings read normalize_instance_name strip count_chars exists_row upper
    is_alpha
updated_one = refl

abbrev token_of : String → CredentialWrite
token_of value = record {
  yandex_token = some (some value);
  spotify_client_id = none;
  spotify_client_secret = some none;
}

update_hides_values_example :
    seen (update (λ s. s) (record payload { credentials = some (token_of "secret") }) 1 store)
    ≡ seen
        (update (λ s. "?") (record payload { credentials = some (token_of "another one") }) 1 store)
update_hides_values_example =
    update_hides_values (λ s. s) (λ s. "?")
      (record payload { credentials = some (token_of "secret") }) (some (token_of "another one")) 1
      store refl
