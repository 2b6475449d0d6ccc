-- ===== src/Integrations/Cache/Owner.antt =====
-- A lock is held by the token that took it, until its owner releases it.
use fuze.Prelude.{
  String, Bool, true, false, Option, none, some, List, [], ◌∷◌, ◌≡◌, refl, arith, ◌==◌, is_equal,
  string_eq, Bool-cases, inl, inr,
}
use fuze.Integrations.Cache.{lookup, delete, Cache, cache_release_lock}

-- the lock of `key` is held with the token
abbrev pub holds : {V : Type 0} → String → String → Cache V → Bool
holds key token c = is_equal (lookup key c.locks) token

lookup-delete_self {ℓ} :
    {V : Type ℓ} (key : String) (kvs : List (String × V)) → lookup key (delete key kvs) ≡ none
unfolding lookup delete
lookup-delete_self key [] = refl
lookup-delete_self key ((k, v) ∷ rest) = elim (Bool-cases (k == key)) [
  | inl hit ↦ rw hit (lookup-delete_self key rest)
  | inr miss ↦ rw miss (rw miss (lookup-delete_self key rest))
]

-- after a release the token holds the lock no more
pub release-holds :
    {V : Type 0} (key token : String) (c : Cache V)
    → holds key token (cache_release_lock key token c) ≡ false
unfolding cache_release_lock
release-holds key token c = elim (Bool-cases (is_equal (lookup key c.locks) token)) [
  | inl mine ↦ rw (mine, cache_release_lock) (rw (lookup-delete_self key c.locks) refl)
  | inr other ↦ rw (other, cache_release_lock) other
]

one_owner :
    (o : Option String) (t u : String) → is_equal o t ≡ true → is_equal o u ≡ true → (t == u) ≡ true
one_owner none t u a b = absurd (cc)
one_owner (some s) t u a b =
    ground (arith, string_eq.test_iff s t, string_eq.test_iff s u, string_eq.test_iff t u, a, b)

-- a release does not touch the lock of another owner
pub release-other :
    {V : Type 0} (key token u : String) (c : Cache V)
    → (token == u) ≡ false
    → holds key u c ≡ true
    → cache_release_lock key token c ≡ c
unfolding cache_release_lock
release-other key token u c apart held = elim (Bool-cases (is_equal (lookup key c.locks) token)) [
  | inl mine ↦ absurd (cc (one_owner (lookup key c.locks) token u mine held, apart))
  | inr other ↦ rw (other, cache_release_lock) refl
]
