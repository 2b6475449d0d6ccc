-- ===== src/Tracks/Resolve/Outcome.antt =====
-- Which video `_resolve_youtube_url` chooses, and what it remembers.
use fuze.Prelude.{
  ℕ, String, Bool, true, false, ◌||◌, not, ◌==◌, Option, none, some, List, [], ◌∷◌, ◌≡◌, refl, All,
  Bool-cases, inl, inr, if◌then◌else◌,
}
use fuze.Prelude.Texts.{is_empty, text_or, join}
use fuze.Tracks.Models.{Track, TrackSource, source_eq}
use fuze.Tracks.Processor.{Stage}
use fuze.Tracks.Resolve.{
  Candidate, Searched, Matching, accepts, scored, sort, choose, match_key, search_match, end_search,
  from_cache, resolve_youtube_url, Cached, CacheWrite,
}
use fuze.Tracks.Resolve.Choice.{IsBest, Choice, sorted-Choice, head}

abbrev pub remembers : Cached → Bool
remembers cached = not (is_empty (text_or cached.url ""))

-- what the cache holds on the match, if it decides
abbrev pub decides : Option Cached → Bool
decides none = false
decides (some cached) = cached.negative || remembers cached

-- how the search for a track's video ends, and what it writes to the cache
pub data Resolved (m : Matching) (t : Track) : Stage String × List CacheWrite → Type 0 where
  own :
      (t.source == TrackSource.youtube) ≡ true
      → Resolved m t
          (Stage.done (text_or t.yt_url (join "https://www.youtube.com/watch?v=" t.source_id)), [])
  refused :
      (t.source == TrackSource.youtube) ≡ false
      → (cached : Cached) → m.cached ≡ some cached
      → cached.negative ≡ true
      → Resolved m t (Stage.ambiguous, [])
  remembered :
      (t.source == TrackSource.youtube) ≡ false
      → (cached : Cached) (url : String) → m.cached ≡ some cached
      → cached.negative ≡ false
      → cached.url ≡ some url
      → is_empty url ≡ false
      → Resolved m t (Stage.done url, [])
  matched :
      (t.source == TrackSource.youtube) ≡ false
      → (cs : List Candidate) (c : Candidate) → decides m.cached ≡ false
      → m.searched ≡ Searched.results cs
      → IsBest m t cs c
      → Resolved m t (
        Stage.done c.url,
        record {
          key = match_key m t;
          value = record { negative = false; url = some c.url };
          ttl_seconds = 86400;
        }
            ∷ [],
      )
  unmatched :
      (t.source == TrackSource.youtube) ≡ false
      → (cs : List Candidate) → decides m.cached ≡ false
      → m.searched ≡ Searched.results cs
      → All (λ x. accepts m t x ≡ false) cs
      → Resolved m t (
        Stage.ambiguous,
        record {
          key = match_key m t;
          value = record { negative = true; url = none };
          ttl_seconds = 120;
        }
            ∷ [],
      )
  failed :
      (t.source == TrackSource.youtube) ≡ false
      → (name : String) → decides m.cached ≡ false
      → m.searched ≡ Searched.raised name
      → Resolved m t (Stage.broken name, [])

module _ (m : Matching) (t : Track) (other : (t.source == TrackSource.youtube) ≡ false) where
  choose-Resolved :
      (cs : List Candidate) (ps : List (ℕ × Candidate))
      → decides m.cached ≡ false
      → m.searched ≡ Searched.results cs
      → Choice m t cs (head ps)
      → Resolved m t (choose (match_key m t) ps)
  unfolding choose
  choose-Resolved cs [] undecided found h = Resolved.unmatched other cs undecided found h
  choose-Resolved cs (p ∷ ps) undecided found h = Resolved.matched other cs p.1 undecided found h.1

  end_search-Resolved :
      (r : Searched) → decides m.cached ≡ false → m.searched ≡ r → Resolved m t (end_search m t r)
  unfolding end_search
  end_search-Resolved (Searched.results cs) undecided found =
      choose-Resolved cs (sort (scored m t cs)) undecided found (sorted-Choice m t cs)
  end_search-Resolved (Searched.raised name) undecided found =
      Resolved.failed other name undecided found

  search_match-Resolved : decides m.cached ≡ false → Resolved m t (search_match m t)
  unfolding search_match
  search_match-Resolved undecided = end_search-Resolved m.searched undecided refl

  kept-Resolved :
      (cached : Cached) (o : Option String)
      → m.cached ≡ some cached
      → cached.negative ≡ false
      → cached.url ≡ o
      → Resolved m t
          (if is_empty (text_or o "") then search_match m t else (Stage.done (text_or o ""), []))
  kept-Resolved cached none e kept bare = search_match-Resolved (rw e (simp (kept, bare)))
  kept-Resolved cached (some u) e kept named = elim (Bool-cases (is_empty u)) [
    | inl empty ↦ rw empty (search_match-Resolved (rw e (simp (kept, named, empty))))
    | inr full ↦ rw full (rw full (Resolved.remembered other cached u e kept named full))
  ]

  from_cache-Resolved : (o : Option Cached) → m.cached ≡ o → Resolved m t (from_cache m t o)
  unfolding from_cache
  from_cache-Resolved none e = search_match-Resolved (rw e refl)
  from_cache-Resolved (some cached) e = elim (Bool-cases cached.negative) [
    | inl no_match ↦ rw no_match (Resolved.refused other cached e no_match)
    | inr kept ↦ rw kept (kept-Resolved cached cached.url e kept refl)
  ]

-- A track of YouTube has its own URL. For a track of another source what the cache holds on its
-- match is taken, if it decides; otherwise the chosen video is one that the filters accept, no
-- earlier result that they accept is as good and no later one is better, and it is remembered for a
-- day; where they accept no result the match is ambiguous, which is remembered for two minutes; and
-- an error of the search is passed on, and nothing is remembered.
pub resolve_youtube_url-Resolved :
    (m : Matching) (t : Track) → Resolved m t (resolve_youtube_url m t)
unfolding resolve_youtube_url
resolve_youtube_url-Resolved m t = elim (Bool-cases (t.source == TrackSource.youtube)) [
  | inl mine ↦ rw mine (Resolved.own mine)
  | inr other ↦ rw other (from_cache-Resolved m t other m.cached refl)
]
