-- ===== src/Integrations/Cache.antt =====
-- integrations/cache.py: the keys in Redis and the locks with an owner. The expiry of a key is an
-- event of the server.
pub mod Owner
use fuze.Prelude.{
  String, Option, none, some, List, [], ◌∷◌, ◌==◌, is_equal, string_eq, if◌then◌else◌,
}

module _ {ℓ} {V : Type ℓ} where
  -- GET
  unfoldable pub lookup : String → List (String × V) → Option V
  lookup key [] = none
  lookup key ((k, v) ∷ rest) = let later = lookup key rest in if k == key then some v else later

  -- DEL
  unfoldable pub delete : String → List (String × V) → List (String × V)
  delete key [] = []
  delete key ((k, v) ∷ rest) =
      let kept = delete key rest in if k == key then kept else (k, v) ∷ kept

-- the values, and the locks with the token of their owner
pub record Cache (V : Type 0) : Type 0 where
  pub entries : List (String × V)
  pub locks : List (String × String)

module _ {V : Type 0} where
  unfoldable pub cache_get : String → Cache V → Option V
  unfolding lookup
  cache_get key c = lookup key c.entries

  unfoldable pub cache_set : String → V → Cache V → Cache V
  unfolding delete
  cache_set key value c = record c { entries = (key, value) ∷ delete key c.entries }

  -- SET NX
  unfoldable pub cache_acquire_lock : String → String → Cache V → Option String × Cache V
  unfolding lookup
  cache_acquire_lock key token c = elim (lookup key c.locks) [
    | none ↦ (some token, record c { locks = (key, token) ∷ c.locks })
    | some _ ↦ (none, c)
  ]

  -- the script: only the owner deletes the lock
  unfoldable pub cache_release_lock : String → String → Cache V → Cache V
  unfolding lookup delete
  cache_release_lock key token c =
      if is_equal (lookup key c.locks) token then record c { locks = delete key c.locks } else c
