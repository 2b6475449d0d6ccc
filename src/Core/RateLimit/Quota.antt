-- ===== src/Core/RateLimit/Quota.antt =====
-- What `RedisRateLimit` of core/rate_limit.py grants a client in a window of time.
use fuze.Prelude.{
  ℕ, ◌+◌, ◌-◌, ◌/◌, ◌%◌, ◌≤◌, ◌<◌, suc, String, ◌≡◌, refl, sym, ◌∙◌, Bool, true, false, List, [],
  ◌∷◌, All, ◌||◌, ◌==◌, nat_eq, ltb, arith, Bool-cases, inl, inr,
}
use mathlib.Core.Path.{subst}
use native.Mathlib.Nat.{div-eq_of_lt-le, div-add-mod', add-mul}
use fuze.Prelude.Int.{pos}
use fuze.Core.RateLimit.{
  Identity, Request, RateKey, Redis, RateLimit, Verdict, key_at, verdict, fixed_window,
  count_request, call,
}

abbrev pub limit_of : String → ℕ → ℕ → RateLimit
limit_of scope limit window = record { scope = scope; requests = pos limit; window = pos window }

-- the end of the window is `n` seconds away
pub record EndsIn (window now n : ℕ) : Type 0 where
  pub ahead : 0 < n
  pub near : n ≤ window
  pub next : (now + n) / window ≡ suc (now / window)
  pub same : (m : ℕ) → m < n → (now + m) / window ≡ now / window

window-EndsIn : (window now : ℕ) → 0 < window → EndsIn window now (window - now % window)
window-EndsIn window now h =
    let split = div-add-mod' now window in
    let low : now % window < window = omega (arith, h) in
    let grown = add-mul (now / window) 1 window in
    let grown_twice = add-mul (now / window + 1) 1 window in
    record {
      ahead = omega (arith, low);
      near = omega arith;
      next =
          div-eq_of_lt-le window (omega (arith, split, low, grown))
            (omega (arith, split, low, grown, grown_twice));
      same = λ m k.
          div-eq_of_lt-le window (omega (arith, split)) (omega (arith, split, low, grown, k));
    }

-- the wait that a refusal names
abbrev pub IsWait : ℕ → ℕ → Verdict → Type 0
IsWait window now (Verdict.too_many_requests n) = EndsIn window now n
IsWait window now _ = Unit {0}

verdict-IsWait :
    (limit window now count : ℕ) → 0 < window → IsWait window now (verdict limit window now count)
unfolding verdict
verdict-IsWait limit window now count h =
    let w = window-EndsIn window now h in
    elim (Bool-cases (ltb limit count)) [
      | inl over ↦ elim (Bool-cases (ltb 1 (window - now % window))) [
        | inl e ↦ rw (over, e) w
        | inr e ↦
            let one : window - now % window ≡ 1 = ground (arith, e, w.ahead) in
            rw (over, e) (subst (EndsIn window now) one w)
      ]
      | inr within ↦ rw within tt
    ]

-- the count in Redis of the requests under a key of a window
pub record Counts {S : Type 0} (redis : Redis S) (window : ℕ) : Type 0 where
  pub held : RateKey → S → ℕ
  -- INCR returns the count after it
  pub incr_returns : (k : RateKey) (s : S) → (redis.incr k s).0 ≡ suc (held k s)
  pub incr_holds : (k : RateKey) (s : S) → held k (redis.incr k s).1 ≡ suc (held k s)
  -- EXPIRE keeps the count as long as the time to live is longer than the window that the key is for
  pub expire_holds :
      (k : RateKey) (ttl : ℕ) (s : S) → window < ttl → held k (redis.expire k ttl s) ≡ held k s

module _ {S : Type 0} (redis : Redis S) (digest : Identity → String) where
  call_counts :
      (production : Bool) (scope : String) (limit window : ℕ) (r : Request) (now : ℕ) (s : S)
      → 0 < limit
      → 0 < window
      → call redis digest production (limit_of scope limit window) r now s
        ≡ count_request redis digest production scope limit window r now s
  unfolding call
  call_counts production scope limit window r now s some_limit some_window =
      let e : ((limit == 0) || (window == 0)) ≡ false = ground (arith, some_limit, some_window) in
      rw e refl

  count_request-IsWait :
      (production : Bool) (scope : String) (limit window : ℕ) (r : Request) (now : ℕ) (s : S)
      → 0 < window
      → IsWait window now (count_request redis digest production scope limit window r now s).0
  unfolding count_request
  count_request-IsWait production scope limit window r now s h = elim (Bool-cases (redis.is_up s)) [
    | inl up ↦ rw up (verdict-IsWait limit window now _ h)
    | inr down ↦ elim (Bool-cases production) [ inl p ↦ rw (down, p) tt | inr p ↦ rw (down, p) tt ]
  ]

  -- With a positive limit and window, a refusal for too many requests names the wait until the next
  -- window: it is positive and at most the window, a request after it counts in the next window, and
  -- any request before is still counted in this one.
  pub call-IsWait :
      (production : Bool) (scope : String) (limit window : ℕ) (r : Request) (now : ℕ) (s : S)
      → 0 < limit
      → 0 < window
      → IsWait window now (call redis digest production (limit_of scope limit window) r now s).0
  call-IsWait production scope limit window r now s some_limit some_window =
      subst (λ (out : Verdict × S). IsWait window now out.0)
        (sym (call_counts production scope limit window r now s some_limit some_window))
        (count_request-IsWait production scope limit window r now s some_window)

  -- whether the guard lets a request through
  abbrev pub granted : Verdict → ℕ
  granted Verdict.passes = 1
  granted _ = 0

  -- how many of the requests, each at its time, the guard lets through in production
  unfoldable pub served : RateLimit → List (Request × ℕ) → S → ℕ
  served l [] s = 0
  served l ((r, now) ∷ rs) s =
      granted (call redis digest true l r now s).0
      + served l rs (call redis digest true l r now s).1

  module _ (window : ℕ) (counts : Counts redis window) where
    fixed_window-held :
        (k : RateKey) (ttl : ℕ) (s : S)
        → window < ttl
        → ((fixed_window redis k ttl s).0 ≡ suc (counts.held k s))
          × (counts.held k (fixed_window redis k ttl s).1 ≡ suc (counts.held k s))
    unfolding fixed_window
    fixed_window-held k ttl s long = elim (Bool-cases ((redis.incr k s).0 == 1)) [
      | inl e ↦ rw e (
        counts.incr_returns k s,
        counts.expire_holds k ttl (redis.incr k s).1 long ∙ counts.incr_holds k s,
      )
      | inr e ↦ rw e (counts.incr_returns k s, counts.incr_holds k s)
    ]

    granted_within :
        (scope : String) (limit : ℕ) (r : Request) (now : ℕ) (s : S)
        → let out = count_request redis digest true scope limit window r now s in
          let k = key_at digest scope r window now in
          granted out.0 + (limit - counts.held k out.1) ≤ limit - counts.held k s
    unfolding count_request verdict
    granted_within scope limit r now s =
        let k = key_at digest scope r window now in
        let (returned, after) = fixed_window-held k (window + 1) s (omega arith) in
        elim (Bool-cases (redis.is_up s)) [
          | inl up ↦ elim (Bool-cases (ltb limit (suc (counts.held k s)))) [
            | inl e ↦ rw (up, returned, after, e) (omega arith)
            | inr e ↦ rw (up, returned, after, e) (ground (arith, e))
          ]
          | inr down ↦ rw down (omega arith)
        ]

    -- In production, of a sequence of requests of one client in one window the guard lets through
    -- at most as many as the limit leaves beside those that are counted already, also when the
    -- server fails. The limit and the window must be positive, INCR must count, and EXPIRE with a time to
    -- live longer than the window must keep the count.
    pub served-bound :
        (scope : String) (limit : ℕ) (k : RateKey) (rs : List (Request × ℕ)) (s : S)
        → 0 < limit
        → 0 < window
        → All (λ q. key_at digest scope q.0 window q.1 ≡ k) rs
        → served (limit_of scope limit window) rs s ≤ limit - counts.held k s
    unfolding served
    served-bound scope limit k [] s some_limit some_window same = omega arith
    served-bound scope limit k ((r, now) ∷ rs) s some_limit some_window (here, there) =
        let out = count_request redis digest true scope limit window r now s in
        let rest : served (limit_of scope limit window) rs out.1 ≤ limit - counts.held k out.1 =
          served-bound scope limit k rs out.1 some_limit some_window there in
        let one : granted out.0 + (limit - counts.held k out.1) ≤ limit - counts.held k s =
          rw (sym here) (granted_within scope limit r now s) in
        let sum : granted out.0 + served (limit_of scope limit window) rs out.1
            ≤ limit - counts.held k s =
          omega (arith, rest, one) in
        subst
          (λ (x : Verdict × S).
            granted x.0 + served (limit_of scope limit window) rs x.1 ≤ limit - counts.held k s)
          (sym (call_counts true scope limit window r now s some_limit some_window)) sum
