-- ===== src/Users/Tests.antt =====
-- An instance with one administrator, and requests that would leave it without.
use fuze.Prelude.{refl, none, some, [], ◌∷◌, arith}
use fuze.Core.Config.{UserRole}
use fuze.Database.Tables.{Db}
use fuze.Database.Sql.{exists_row}
use fuze.Users.Repository.{is_active_admin}
use fuze.Users.Service.{UserUpdate, update_user, delete_user}
use fuze.Users.Managed.{IsGoverned, Step, Reach, Reach-IsGoverned}
use fuze.Fixtures.{no_rows, settled_db, crypto, admin, listener}

abbrev store : Db
store = settled_db 3 (record no_rows { users = admin ∷ listener ∷ [] })

store-IsGoverned : IsGoverned store
unfolding exists_row is_active_admin
store-IsGoverned = record {
  accounts = record {
    managed = refl;
    ids = (refl, (refl, tt));
    drawn = (omega arith, (omega arith, tt));
  };
  saved = refl;
}

-- the listener is made an administrator
abbrev promotion : UserUpdate
promotion = record {
  name = none;
  email = none;
  password = none;
  role = some (some UserRole.admin);
  is_active = none;
}

Reach-IsGoverned_example : IsGoverned (delete_user 1 (update_user crypto 2 promotion store).1).1
Reach-IsGoverned_example =
    Reach-IsGoverned store-IsGoverned
      (Reach.next (Reach.next Reach.here (Step.update crypto 2 promotion)) (Step.delete 1))
