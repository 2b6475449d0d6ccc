-- ===== src/Integrations/Spotify.antt =====
-- integrations/spotify.py: the client of Spotify's API, with its token and its retry window. What the
-- servers answer, the digest and the clock are arguments; a time is a number of seconds.
pub mod Window
use fuze.Prelude.{
  ℕ, ◌+◌, String, Bool, true, false, not, ◌&&◌, ◌||◌, Option, none, some, List, [], ◌∷◌, ltb, leb,
  ◌==◌, is_equal, nat_eq, string_eq, if◌then◌else◌, take,
}
use fuze.Prelude.Int.{ℤ, pos, max_ℤ, pos_part}
use fuze.Prelude.Texts.{is_empty, text_or, join, take_chars}

-- the exceptions that leave the client: SpotifyError and its subclasses, and a ValueError
pub data Failure : Type 0 where
  unavailable rate_limited quota_exceeded disabled value_error : Failure

-- how a call ends
pub data Answer {ℓ} (A : Type ℓ) : Type ℓ where
  found : A → Answer A
  failed : Failure → Answer A

pub record SpotifyToken : Type 0 where
  pub value : String
  pub expires_at : ℕ
  pub credential_hash : String

pub record SpotifyClient : Type 0 where
  pub token : Option SpotifyToken
  pub retry_after_until : ℕ

-- an item of the API, with the keys that are read
pub record Item : Type 0 where
  pub id : Option String
  pub name : Option String
  pub artists : List (Option String)
  pub album : Option String
  pub release_year : String → Option ℕ
  pub release_date : Option String
  pub duration_ms : Option ℤ
  pub images : List (Option String)
  pub url : Option String

-- a response; `retry_after` is the header, where `some none` is one that is no number, and `body`
-- is what the JSON has where it has the expected form
pub record Response (A : Type 0) : Type 0 where
  pub status_code : ℕ
  pub retry_after : Option (Option ℤ)
  pub reason : Option String
  pub body : Option A

-- the answers and the clock's readings during one call; none is an error of the transport
pub record Outside (A : Type 0) : Type 0 where
  pub started : ℕ
  pub asked_token : ℕ
  pub asked_again : ℕ
  pub refused_at : ℕ
  pub digest : String → String → String
  pub authenticate : String → String → Option (String × ℕ)
  pub get : String → Option (Response A)
  pub default_id : String
  pub default_secret : String

-- `client_id or settings.SPOTIFY_CLIENT_ID or ""`
abbrev pub or_default : String → String → String
or_default value default_value = if is_empty value then default_value else value

unfoldable pub is_fresh : String → ℕ → Option SpotifyToken → Bool
is_fresh credential_hash now none = false
is_fresh credential_hash now (some t) =
    t.credential_hash == credential_hash && ltb (now + 30) t.expires_at

unfoldable pub store_token :
    String → ℕ → Option (String × ℕ) → SpotifyClient → Answer String × SpotifyClient
store_token credential_hash now none c = (Answer.failed Failure.unavailable, c)
store_token credential_hash now (some (value, expires_in)) c = (
  Answer.found value,
  record c {
    token = some (record {
      value = value;
      expires_at = now + expires_in;
      credential_hash = credential_hash;
    });
  },
)

unfoldable pub cached_or :
    Bool
    → Option SpotifyToken
    → Answer String × SpotifyClient
    → SpotifyClient
    → Answer String × SpotifyClient
cached_or true (some t) fresh c = (Answer.found t.value, c)
cached_or _ _ fresh c = fresh

module _ {A : Type 0} (o : Outside A) where
  -- `_get_token`
  unfoldable pub get_token :
      ℕ → String → String → Bool → SpotifyClient → Answer String × SpotifyClient
  unfolding is_fresh store_token cached_or
  get_token now client_id client_secret force c =
      let credential_hash = o.digest client_id client_secret in
      cached_or (not force && is_fresh credential_hash now c.token) c.token
        (store_token credential_hash now (o.authenticate client_id client_secret) c) c

  -- `max(int(response.headers.get("Retry-After", "1")), 1)`
  unfoldable pub retry_seconds : Response A → Option ℕ
  retry_seconds r = elim r.retry_after [
    | none ↦ some 1
    | some none ↦ none
    | some (some n) ↦ some (pos_part (max_ℤ n (pos 1)))
  ]

  -- the answer 429, where `refuse` is the exception that the caller raises
  unfoldable pub refused :
      (Response A → Failure) → Response A → SpotifyClient → Answer A × SpotifyClient
  unfolding retry_seconds
  refused refuse r c = elim (retry_seconds r) [
    | none ↦ (Answer.failed Failure.value_error, c)
    | some n ↦ (Answer.failed (refuse r), record c { retry_after_until = o.refused_at + n })
  ]

  -- `raise_for_status` and the reading of the body, which must satisfy `accept`
  unfoldable pub read_body : (A → Bool) → Response A → SpotifyClient → Answer A × SpotifyClient
  read_body accept r c = elim r.body [
    | none ↦ (Answer.failed Failure.unavailable, c)
    | some a ↦
        if leb 200 r.status_code && (ltb r.status_code 300 && accept a)
        then (Answer.found a, c)
        else (Answer.failed Failure.unavailable, c)
  ]

  -- the last attempt, which does not ask for another token
  unfoldable pub last_attempt :
      (A → Bool) → (Response A → Failure) → Answer String × SpotifyClient → Answer A × SpotifyClient
  unfolding refused read_body
  last_attempt accept refuse (Answer.failed e, c) = (Answer.failed e, c)
  last_attempt accept refuse (Answer.found token, c) = elim (o.get token) [
    | none ↦ (Answer.failed Failure.unavailable, c)
    | some r ↦ if r.status_code == 429 then refused refuse r c else read_body accept r c
  ]

  -- the loop `for attempt in range(2)`
  unfoldable pub attempts :
      (A → Bool)
      → (Response A → Failure)
      → String
      → String
      → Answer String × SpotifyClient
      → Answer A × SpotifyClient
  unfolding get_token refused read_body last_attempt
  attempts accept refuse client_id client_secret (Answer.failed e, c) = (Answer.failed e, c)
  attempts accept refuse client_id client_secret (Answer.found token, c) = elim (o.get token) [
    | none ↦ (Answer.failed Failure.unavailable, c)
    | some r ↦
        if r.status_code == 401
        then last_attempt accept refuse (get_token o.asked_again client_id client_secret true c)
        else if r.status_code == 429
        then refused refuse r c
        else read_body accept r c
  ]

  unfoldable pub request :
      (A → Bool)
      → (Response A → Failure)
      → String
      → String
      → SpotifyClient
      → Answer A × SpotifyClient
  unfolding attempts get_token
  request accept refuse client_id client_secret c =
      let id = or_default client_id o.default_id in
      let secret = or_default client_secret o.default_secret in
      if ltb o.started c.retry_after_until
      then (Answer.failed Failure.rate_limited, c)
      else attempts accept refuse id secret (get_token o.asked_token id secret false c)

abbrev pub present : Option String → Bool
present none = false
present (some s) = not (is_empty s)

-- `item.get("id")` is truthy
abbrev pub has_key : Item → Bool
has_key i = present i.id

-- ", ".join(…) of the names that are there
unfoldable pub join_names : List (Option String) → String
unfolding join
join_names [] = ""
join_names (name ∷ names) =
    let rest = join_names names in
    let n = text_or name "" in
    if is_empty n then rest else if is_empty rest then n else join n (join ", " rest)

abbrev pub first_image : List (Option String) → Option String
first_image [] = none
first_image (url ∷ _) = url

-- the dictionary that `_map_track` returns
pub record MappedTrack : Type 0 where
  pub source_id : String
  pub title : String
  pub artist : String
  pub album : Option String
  pub year : Option ℕ
  pub duration_ms : Option ℤ
  pub cover_url : Option String
  pub external_url : String

-- `strptime(release_date[:4], "%Y").year`, or None
abbrev pub year_of : (String → Option ℕ) → Option String → Option ℕ
unfolding take_chars
year_of parse none = none
year_of parse (some date) = if is_empty date then none else parse (take_chars 4 date)

unfoldable pub map_track : Item → MappedTrack
unfolding join_names join
map_track i = record {
  source_id = text_or i.id "";
  title = text_or i.name "Untitled";
  artist = text_or (some (join_names i.artists)) "Unknown";
  album = i.album;
  year = year_of i.release_year i.release_date;
  duration_ms = i.duration_ms;
  cover_url = first_image i.images;
  external_url = text_or i.url (join "https://open.spotify.com/track/" (text_or i.id ""));
}

unfoldable pub map_items : List Item → List MappedTrack
unfolding map_track
map_items [] = []
map_items (i ∷ is) = let rest = map_items is in if has_key i then map_track i ∷ rest else rest

abbrev pub map_answer :
    {A B : Type 0} → (A → B) → Answer A × SpotifyClient → Answer B × SpotifyClient
map_answer f (Answer.found a, c) = (Answer.found (f a), c)
map_answer f (Answer.failed e, c) = (Answer.failed e, c)

unfoldable pub search_refusal : Response (List Item) → Failure
search_refusal r =
    if is_equal r.reason "QUOTA_EXCEEDED" then Failure.quota_exceeded else Failure.rate_limited

unfoldable pub search :
    Outside (List Item)
    → String
    → String
    → SpotifyClient
    → Answer (List MappedTrack) × SpotifyClient
unfolding request search_refusal map_items
search o client_id client_secret c =
    map_answer (λ items. map_items (take 10 items))
      (request o (λ _. true) search_refusal client_id client_secret c)

-- an item without an identifier is malformed
unfoldable pub get_track :
    Outside Item → String → String → SpotifyClient → Answer MappedTrack × SpotifyClient
unfolding request map_track
get_track o client_id client_secret c =
    map_answer map_track (request o has_key (λ _. Failure.rate_limited) client_id client_secret c)
