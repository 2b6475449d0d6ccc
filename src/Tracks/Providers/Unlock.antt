-- ===== src/Tracks/Providers/Unlock.antt =====
-- The lock of a search is released, whatever other processes do in the meantime.
use mathlib.Core.Path.{subst}
use fuze.Prelude.{String, Bool, true, false, List, [], ◌∷◌, ◌++◌, ◌≡◌, refl, ◌∙◌, ap}
use fuze.Integrations.Cache.{Cache}
use fuze.Integrations.Cache.Owner.{holds, release-holds}
use fuze.Tracks.Service.{SearchItem}
use fuze.Tracks.Providers.Cached.{
  Read, Locking, Asked, Searching, Command, end_ask, ask, ask_locked, search_locked, search_first,
  search_cached, perform, ProviderResult, ProviderStatus, status_of,
}

-- the cache from the first of the commands to after the last, where others write between them, but
-- never take the lock of `key` with `token`
pub data Run (key token : String)
    : List Command → Cache (List SearchItem) → Cache (List SearchItem) → Type 0 where
  done : (c : Cache (List SearchItem)) → Run key token [] c c
  own :
      (x : Command) (xs : List Command) (c d : Cache (List SearchItem))
      → Run key token xs (perform x c) d
      → Run key token (x ∷ xs) c d
  other :
      (xs : List Command) (c e d : Cache (List SearchItem))
      → (holds key token c ≡ false → holds key token e ≡ false)
      → Run key token xs e d
      → Run key token xs c d

-- the last of the commands is the release
abbrev Releases : String → String → List Command → Type 0
Releases key token [] = ⊥
Releases key token (x ∷ []) = x ≡ Command.release key token
Releases key token (x ∷ y ∷ xs) = Releases key token (y ∷ xs)

module _ (key token : String) where
  stays_free :
      {xs : List Command} {c d : Cache (List SearchItem)}
      → Run key token xs c d
      → xs ≡ []
      → holds key token c ≡ false
      → holds key token d ≡ false
  stays_free (Run.done c) e h = h
  stays_free (Run.own x xs c d r) e h = absurd (cc)
  stays_free (Run.other xs c d e keep r) s h = stays_free r s (keep h)

  Releases-free :
      {xs : List Command} {c d : Cache (List SearchItem)}
      → Run key token xs c d
      → Releases key token xs
      → holds key token d ≡ false
  unfolding perform
  Releases-free (Run.done c) last = absurd last
  Releases-free (Run.own x [] c d r) last = stays_free r refl (rw last (release-holds key token c))
  Releases-free (Run.own x (y ∷ xs) c d r) last = Releases-free r last
  Releases-free (Run.other [] c e d keep r) last = absurd last
  Releases-free (Run.other (x ∷ xs) c e d keep r) last = Releases-free r last

  Releases-append : (cs : List Command) → Releases key token (cs ++ Command.release key token ∷ [])
  Releases-append [] = refl
  Releases-append (x ∷ []) = refl
  Releases-append (x ∷ y ∷ cs) = Releases-append (y ∷ cs)

abbrev pub is_hit : Read → Bool
is_hit (Read.hit _) = true
is_hit _ = false

asked_first :
    (s : Searching) (r : Read) (token : String)
    → is_hit r ≡ false
    → s.locking ≡ Locking.acquired token
    → search_first s r ≡ ask_locked s token
unfolding search_first search_locked
asked_first s (Read.hit xs) token missed locked = absurd (cc)
asked_first s Read.miss token missed locked = ap (search_locked s) locked
asked_first s Read.raised token missed locked = ap (search_locked s) locked

-- what a search makes of the provider's own answer
abbrev pub own_answer : Asked → ProviderResult
own_answer (Asked.answered xs) = record { items = xs; status = ProviderStatus.ok; cached = false }
own_answer (Asked.spotify_error e) = record { items = []; status = status_of e; cached = false }
own_answer Asked.error = record { items = []; status = ProviderStatus.unavailable; cached = false }

end_ask-own_answer : (s : Searching) (a : Asked) → (end_ask s a).0 ≡ own_answer a
unfolding end_ask
end_ask-own_answer s (Asked.answered xs) = refl
end_ask-own_answer s (Asked.spotify_error e) = refl
end_ask-own_answer s Asked.error = refl

ask_locked-own_answer :
    (s : Searching) (token : String) → (ask_locked s token).0 ≡ own_answer s.asked
unfolding ask_locked ask
ask_locked-own_answer s token = end_ask-own_answer s s.asked

ask_locked-Releases : (s : Searching) (token : String) → Releases s.key token (ask_locked s token).1
unfolding ask_locked
ask_locked-Releases s token = Releases-append s.key token (ask s).1

-- A search that misses the cache and takes the lock ends with what the provider answers: its items,
-- or no items and the status of its error. However that ends, once its commands have run the lock
-- is not held with its token any more, whatever other processes wrote in between, as long as they
-- do not take the lock with this token.
pub search_cached-free :
    (s : Searching) (token : String) (c d : Cache (List SearchItem))
    → is_hit s.first ≡ false
    → s.locking ≡ Locking.acquired token
    → Run s.key token (search_cached s).1 c d
    → ((search_cached s).0 ≡ own_answer s.asked) × (holds s.key token d ≡ false)
unfolding search_cached
search_cached-free s token c d missed locked run =
    let same = asked_first s s.first token missed locked in
    (
      ap (λ r. r.0) same ∙ ask_locked-own_answer s token,
      Releases-free s.key token (subst (λ r. Run s.key token r.1 c d) same run)
          (ask_locked-Releases s token),
    )
