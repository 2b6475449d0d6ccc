-- ===== src/Tracks/Resolve.antt =====
-- modules/tracks/service.py: `_resolve_youtube_url`, the choice of the video for a track. What
-- YouTube and the cache answer are arguments, as is the ratio of `SequenceMatcher`, in fractions of
-- `one`.
pub mod Choice
pub mod Outcome
use fuze.Prelude.{
  ℕ, ◌+◌, ◌*◌, ◌/◌, String, Bool, true, false, not, ◌&&◌, ◌||◌, Option, none, some, List, [], ◌∷◌,
  ltb, leb, ◌==◌, nat_eq, if◌then◌else◌,
}
use fuze.Prelude.Int.{ℤ, pos_part, neg_part}
use fuze.Prelude.Texts.{is_empty, text_or, join, occurs}
use fuze.Tracks.Models.{Track, TrackSource, source_eq}
use fuze.Tracks.Processor.{Stage}

-- a result of the search; `duration_ms` is `int(candidate.duration * 1000)`
pub record Candidate : Type 0 where
  pub url : String
  pub title : String
  pub uploader : Option String
  pub duration_ms : ℕ

-- the value of the cache under the key of the match
pub record Cached : Type 0 where
  pub negative : Bool
  pub url : Option String

-- `cache_set` of the key of the match
pub record CacheWrite : Type 0 where
  pub key : String
  pub value : Cached
  pub ttl_seconds : ℕ

-- how the search ends: its results, or an exception by the name of its class
pub data Searched : Type 0 where
  results : List Candidate → Searched
  raised : String → Searched

-- `cached` is none on a miss and where the cache raises
pub record Matching : Type 0 where
  pub one : ℕ
  pub normalize : String → String
  pub ratio : String → String → ℕ
  pub cached : Option Cached
  pub searched : Searched

abbrev pub max : ℕ → ℕ → ℕ
max a b = if leb a b then b else a

module _ (m : Matching) where
  unfoldable pub similarity : String → String → ℕ
  unfolding occurs
  similarity left right =
      let l = m.normalize left in
      let r = m.normalize right in
      if not (is_empty l) && (not (is_empty r) && (occurs l r || occurs r l))
      then m.one
      else m.ratio l r

  -- `max(10_000, int((track.duration_ms or duration_ms) * 0.08))`
  unfoldable pub duration_limit : ℤ → ℕ → ℕ
  duration_limit track_ms duration_ms =
      let base =
        if pos_part track_ms == 0 && neg_part track_ms == 0
        then duration_ms
        else pos_part track_ms in
      max 10000 (base * 8 / 100)

  -- `abs(duration_ms - track.duration_ms) <= duration_limit`
  unfoldable pub is_near : Option ℤ → ℕ → Bool
  unfolding duration_limit
  is_near none duration_ms = true
  is_near (some t) duration_ms =
      let limit = duration_limit t duration_ms in
      leb (duration_ms + neg_part t) (limit + pos_part t)
      && leb (pos_part t) (limit + (duration_ms + neg_part t))

  unfoldable pub title_score : Track → Candidate → ℕ
  unfolding similarity
  title_score t c = similarity t.title c.title

  unfoldable pub artist_score : Track → Candidate → ℕ
  unfolding similarity
  artist_score t c =
      max (similarity t.artist (text_or c.uploader c.title)) (similarity t.artist c.title)

  -- at least 0.8
  abbrev pub is_high : ℕ → Bool
  is_high score = leb (8 * m.one) (10 * score)

  unfoldable pub accepts : Track → Candidate → Bool
  unfolding is_near title_score artist_score
  accepts t c =
      is_near t.duration_ms c.duration_ms
      && (is_high (title_score t c) && is_high (artist_score t c))

  -- twice the mean of the two scores
  unfoldable pub score : Track → Candidate → ℕ
  unfolding title_score artist_score
  score t c = title_score t c + artist_score t c

  unfoldable pub scored : Track → List Candidate → List (ℕ × Candidate)
  unfolding accepts score
  scored t [] = []
  scored t (c ∷ cs) = let rest = scored t cs in if accepts t c then (score t c, c) ∷ rest else rest

-- a stable sort by the first component, the greatest first: an insertion passes what is greater
unfoldable pub insert : ℕ × Candidate → List (ℕ × Candidate) → List (ℕ × Candidate)
insert p [] = p ∷ []
insert p (q ∷ qs) = let rest = insert p qs in if ltb p.0 q.0 then q ∷ rest else p ∷ (q ∷ qs)

unfoldable pub sort : List (ℕ × Candidate) → List (ℕ × Candidate)
unfolding insert
sort [] = []
sort (p ∷ ps) = insert p (sort ps)

unfoldable pub match_key : Matching → Track → String
unfolding join
match_key m t = join "yt_match:v4:" (join (m.normalize t.artist) (join ":" (m.normalize t.title)))

-- the search's outcome, with the write to the cache
unfoldable pub choose : String → List (ℕ × Candidate) → Stage String × List CacheWrite
choose key [] = (
  Stage.ambiguous,
  record { key = key; value = record { negative = true; url = none }; ttl_seconds = 120 } ∷ [],
)
choose key ((s, c) ∷ _) = (
  Stage.done c.url,
  record { key = key; value = record { negative = false; url = some c.url }; ttl_seconds = 86400 }
      ∷ [],
)

unfoldable pub end_search : Matching → Track → Searched → Stage String × List CacheWrite
unfolding choose sort scored match_key
end_search m t (Searched.results cs) = choose (match_key m t) (sort (scored m t cs))
end_search m t (Searched.raised name) = (Stage.broken name, [])

unfoldable pub search_match : Matching → Track → Stage String × List CacheWrite
unfolding end_search
search_match m t = end_search m t m.searched

unfoldable pub from_cache : Matching → Track → Option Cached → Stage String × List CacheWrite
unfolding search_match
from_cache m t none = search_match m t
from_cache m t (some cached) =
    if cached.negative
    then (Stage.ambiguous, [])
    else if is_empty (text_or cached.url "")
    then search_match m t
    else (Stage.done (text_or cached.url ""), [])

unfoldable pub resolve_youtube_url : Matching → Track → Stage String × List CacheWrite
unfolding from_cache join
resolve_youtube_url m t =
    if t.source == TrackSource.youtube
    then (Stage.done (text_or t.yt_url (join "https://www.youtube.com/watch?v=" t.source_id)), [])
    else from_cache m t m.cached
