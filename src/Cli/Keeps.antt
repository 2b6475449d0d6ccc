-- ===== src/Cli/Keeps.antt =====
-- Commands whose statements keep the accounts of an instance managed, and what their transactions leave.
use mathlib.Core.Path.{subst}
use fuze.Prelude.{
  ℕ, ap, ◌≤◌, ◌<◌, ◌==◌, String, ◌≡◌, refl, ◌∙◌, sym, Bool, true, Option, none, some, List, [], ◌∷◌,
  arith, Bool-cases, inl, inr, All-weaken, nat_eq,
}
use fuze.Core.Config.{UserRole}
use fuze.Database.Tables.{Tables, Db}
use fuze.Database.Exec.{gets, modify}
use fuze.Database.Sql.{update_where, exists_row}
use fuze.Database.Sql.Laws.{Distinct-update_where, All-update_where}
use fuze.Users.Models.{User}
use fuze.Users.Repository
use fuze.Users.Repository.{is_active_admin, on_users, create_access_key}
use fuze.Users.Counting.{same_user}
use fuze.Users.Outcomes.{new_user, insert-free, insert-taken, key_clash, key-free, key-taken}
use fuze.Users.Admins.{IsManaged, added-IsManaged, skipped-IsManaged}
use fuze.Users.Managed.{IsGoverned}
use fuze.Cli.Command.{
  Command, Ended, done, exited, crashed, pure, fail, or_fail, fail_if, statement, transaction,
  ◌>>=◌,
}

grown-IsManaged : (n m : ℕ) (us : List User) → n ≤ m → IsManaged n us → IsManaged m us
grown-IsManaged n m us le h = record {
  managed = h.managed;
  ids = h.ids;
  drawn = All-weaken _ _ us (λ u below. omega (arith, le, below)) h.drawn;
}

exists_row-raised :
    (q p : User → Bool) (f : User → User)
    → ((u : User) → q u ≡ true → q (f u) ≡ true)
    → (us : List User) → exists_row q us ≡ true
    → exists_row q (update_where p f us) ≡ true
unfolding exists_row update_where
exists_row-raised q p f keep [] h = absurd (cc)
exists_row-raised q p f keep (u ∷ us) h = ground (arith, keep u, exists_row-raised q p f keep us)

-- an UPDATE that changes no identifier and takes no administrator away
pub update_where-IsManaged :
    (p : User → Bool) (f : User → User)
    → ((u : User) → (f u).id ≡ u.id)
    → ((u : User) → is_active_admin u ≡ true → is_active_admin (f u) ≡ true)
    → (n : ℕ) (us : List User) → IsManaged n us
    → IsManaged n (update_where p f us)
update_where-IsManaged p f named keep n us h = record {
  managed = exists_row-raised is_active_admin p f keep us h.managed;
  ids =
      Distinct-update_where same_user p f (λ s r. ap (λ i. s.id == i) (named r))
        (λ s. ap (λ i b. i == (let w : User = b in w.id)) (named s)) us h.ids;
  drawn =
      All-update_where (λ u. u.id < n) p f (λ u below _. ground (arith, below, named u)) us h.drawn;
}

-- what the statements of a command leave of the accounts
pub record Kept (d e : Db) : Type 0 where
  pub accounts : IsManaged e.sequence e.current.users
  pub same : e.committed ≡ d.committed
  pub grows : d.sequence ≤ e.sequence

pub record Keeps {ℓ} {A : Type ℓ} (m : Command A) : Type ℓ where
  pub holds : (d : Db) → IsManaged d.sequence d.current.users → Kept d (m d).1

module _ {ℓ κ} {A : Type ℓ} {B : Type κ} (f : A → Command B) where
  -- what `>>=` makes of an outcome
  abbrev resume : Ended A × Db → Ended B × Db
  resume (r, d) = elim r [
    | done a ↦ f a d
    | exited code s ↦ (exited code s, d)
    | crashed e ↦ (crashed e, d)
  ]

  resume-Kept :
      ((a : A) → Keeps (f a)) → (d : Db) (out : Ended A × Db) → Kept d out.1 → Kept d (resume out).1
  resume-Kept next d (Ended.done a, e) k =
      let after = (next a).holds e k.accounts in
      record {
        accounts = after.accounts;
        same = after.same ∙ k.same;
        grows = omega (arith, k.grows, after.grows);
      }
  resume-Kept next d (Ended.exited code s, e) k = k
  resume-Kept next d (Ended.crashed x, e) k = k

  pub bind-Keeps : (m : Command A) → Keeps m → ((a : A) → Keeps (f a)) → Keeps (m >>= f)
  unfolding ◌>>=◌
  bind-Keeps m first next = record { holds = λ d h. resume-Kept next d (m d) (first.holds d h) }

-- a command that leaves the database alone
unchanged-Kept : (d : Db) → IsManaged d.sequence d.current.users → Kept d d
unchanged-Kept d h = record { accounts = h; same = refl; grows = omega arith }

module _ {ℓ} {A : Type ℓ} where
  pub pure-Keeps : (a : A) → Keeps (pure a)
  pure-Keeps a = record { holds = unchanged-Kept }

  pub fail-Keeps : (code : String) (n : ℕ) → Keeps (fail {A = A} code n)
  fail-Keeps code n = record { holds = unchanged-Kept }

  pub or_fail-Keeps : (o : Option A) (code : String) (n : ℕ) → Keeps (or_fail o code n)
  or_fail-Keeps none code n = fail-Keeps code n
  or_fail-Keeps (some a) code n = pure-Keeps a

  pub gets-Keeps : (f : Tables → A) → Keeps (statement (gets f))
  gets-Keeps f = record { holds = unchanged-Kept }

pub fail_if-Keeps : (c : Bool) (code : String) (n : ℕ) → Keeps (fail_if c code n)
fail_if-Keeps c code n = record { holds = unchanged-Kept }

-- a statement on other tables
pub modify-Keeps :
    (f : Tables → Tables) → ((s : Tables) → (f s).users ≡ s.users) → Keeps (statement (modify f))
modify-Keeps f same = record {
  holds = λ d h. record {
    accounts = subst (IsManaged d.sequence) (sym (same d.current)) h;
    same = refl;
    grows = omega arith;
  };
}

pub on_users-Keeps :
    (f : List User → List User)
    → ((n : ℕ) (us : List User) → IsManaged n us → IsManaged n (f us))
    → Keeps (statement (on_users f))
on_users-Keeps f keep = record {
  holds = λ d h. record {
    accounts = keep d.sequence d.current.users h;
    same = refl;
    grows = omega arith;
  };
}

pub create_user-Keeps :
    (email : Option String) (name : String) (password : Option String) (role : UserRole)
    → Keeps (statement (Repository.create_user email name password role))
create_user-Keeps email name password role = record {
  holds = λ d h. elim (Bool-cases (Repository.email_taken email d.current.users)) [
    | inl taken ↦ rw (insert-taken email name password role d taken) (record {
      accounts = skipped-IsManaged d.sequence d.current.users h;
      same = refl;
      grows = omega arith;
    })
    | inr free ↦ rw (insert-free email name password role d free) (record {
      accounts = added-IsManaged d.current.users (new_user d.sequence email name password role) h;
      same = refl;
      grows = omega arith;
    })
  ];
}

pub create_access_key-Keeps :
    (uuid user_id : ℕ) (label key_hash : String)
    → Keeps (statement (create_access_key uuid user_id label key_hash))
create_access_key-Keeps uuid user_id label key_hash = record {
  holds = λ d h. elim (Bool-cases (key_clash uuid user_id key_hash d.current)) [
    | inl clash ↦ rw (key-taken uuid user_id label key_hash d clash) (unchanged-Kept d h)
    | inr free ↦
        rw (key-free uuid user_id label key_hash d free)
          (record { accounts = h; same = refl; grows = omega arith })
  ];
}

rolled :
    (d e : Db)
    → IsManaged d.sequence d.committed.users
    → Kept (record d { current = d.committed }) e
    → IsGoverned (record e { current = e.committed })
rolled d e h k = record {
  accounts =
      subst (λ (s : Tables). IsManaged e.sequence s.users) (sym k.same)
        (grown-IsManaged d.sequence e.sequence d.committed.users k.grows h);
  saved = refl;
}

module _ {ℓ} {A : Type ℓ} where
  abbrev settled : Ended A × Db → Ended A × Db
  settled (Ended.done a, e) = (Ended.done a, record e { committed = e.current })
  settled (Ended.exited code s, e) = (Ended.exited code s, record e { current = e.committed })
  settled (Ended.crashed x, e) = (Ended.crashed x, record e { current = e.committed })

  settled-IsGoverned :
      (d : Db) (out : Ended A × Db)
      → IsManaged d.sequence d.committed.users
      → Kept (record d { current = d.committed }) out.1
      → IsGoverned (settled out).1
  settled-IsGoverned d (Ended.done a, e) h k = record { accounts = k.accounts; saved = refl }
  settled-IsGoverned d (Ended.exited code s, e) h k = rolled d e h k
  settled-IsGoverned d (Ended.crashed x, e) h k = rolled d e h k

  transaction-settled : (d : Db) (out : Ended A × Db) → transaction (λ _. out) d ≡ settled out
  unfolding transaction
  transaction-settled d (Ended.done a, e) = refl
  transaction-settled d (Ended.exited code s, e) = refl
  transaction-settled d (Ended.crashed x, e) = refl

  pub transaction-IsGoverned :
      (m : Command A) (d : Db) → Keeps m → IsGoverned d → IsGoverned (transaction m d).1
  unfolding transaction
  transaction-IsGoverned m d keeps h =
      let start : Db = record d { current = d.committed } in
      let managed : IsManaged d.sequence d.committed.users =
        subst (λ (s : Tables). IsManaged d.sequence s.users) (sym h.saved) h.accounts in
      subst (λ (out : Ended A × Db). IsGoverned out.1) (sym (transaction-settled d (m start)))
        (settled-IsGoverned d (m start) managed (keeps.holds start managed))
