-- ===== src/Core/RateLimit.antt =====
-- core/rate_limit.py: the guard of the routes that counts the requests of a client in fixed windows
-- of time. Redis is an argument, with the two commands that the script sends to it.
use fuze.Prelude.{
  ℕ, ◌+◌, ◌-◌, ◌/◌, ◌%◌, ◌≤◌, ◌<◌, String, ◌≡◌, Bool, Option, none, some, ◌∷◌, ◌||◌, ◌==◌, nat_eq,
  ltb, if◌then◌else◌, arith,
}
use fuze.Prelude.Int.{ℤ, pos, negsuc}
pub mod Quota

-- `f"user:{user_id}"` and `f"ip:{host}"`
pub data Identity : Type 0 where
  user : ℕ → Identity
  ip : String → Identity

-- `request.state.user_id` and `request.client.host`
pub record Request : Type 0 where
  pub user_id : Option ℕ
  pub host : Option String

unfoldable pub identity : Request → Identity
identity r = elim r.user_id [
  | some user_id ↦ Identity.user user_id
  | none ↦ elim r.host [ some host ↦ Identity.ip host | none ↦ Identity.ip "unknown" ]
]

-- `f"rate_limit:v1:{scope}:{client_key}:{bucket}"`
pub record RateKey : Type 0 where
  pub scope : String
  pub client_key : String
  pub bucket : ℕ

-- INCR and EXPIRE, and whether the server answers
pub record Redis (S : Type 0) : Type 0 where
  pub is_up : S → Bool
  pub incr : RateKey → S → ℕ × S
  pub expire : RateKey → ℕ → S → S

-- `RedisRateLimit` with the values of its settings
pub record RateLimit : Type 0 where
  pub scope : String
  pub requests : ℤ
  pub window : ℤ

pub data Verdict : Type 0 where
  passes : Verdict
  -- 429, with the header Retry-After
  too_many_requests : ℕ → Verdict
  -- 503
  unavailable : Verdict

abbrev pub key_at : (Identity → String) → String → Request → ℕ → ℕ → RateKey
key_at digest scope r window now = record {
  scope = scope;
  client_key = digest (identity r);
  bucket = now / window;
}

-- the script
unfoldable pub fixed_window : {S : Type 0} → Redis S → RateKey → ℕ → S → ℕ × S
fixed_window redis key ttl s =
    let (count, s') = redis.incr key s in
    if count == 1 then (count, redis.expire key ttl s') else (count, s')

-- `if count > limit`, and `max(1, window - now % window)`
unfoldable pub verdict : ℕ → ℕ → ℕ → ℕ → Verdict
verdict limit window now count =
    if ltb limit count
    then Verdict.too_many_requests
        (if ltb 1 (window - now % window) then window - now % window else 1)
    else Verdict.passes

module _ {S : Type 0} (redis : Redis S) (digest : Identity → String) (production : Bool) where
  unfoldable pub count_request : String → ℕ → ℕ → Request → ℕ → S → Verdict × S
  unfolding fixed_window
  count_request scope limit window r now s =
      if redis.is_up s
      then (
        verdict limit window now
            (fixed_window redis (key_at digest scope r window now) (window + 1) s).0,
        (fixed_window redis (key_at digest scope r window now) (window + 1) s).1,
      )
      else (if production then Verdict.unavailable else Verdict.passes, s)

  -- `RedisRateLimit.__call__`
  unfoldable pub call : RateLimit → Request → ℕ → S → Verdict × S
  call l r now s = elim l.requests [
    | negsuc _ ↦ (Verdict.passes, s)
    | pos limit ↦ elim l.window [
      | negsuc _ ↦ (Verdict.passes, s)
      | pos window ↦
          if (limit == 0) || (window == 0)
          then (Verdict.passes, s)
          else count_request l.scope limit window r now s
    ]
  ]
