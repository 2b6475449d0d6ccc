-- ===== src/Integrations/Storage.antt =====
-- integrations/storage.py: the object store behind the S3 client, which is an argument: what its calls
-- answer, and the store after them.
pub mod Upload
use Prim.Native.Char.{Char, code}
use fuze.Prelude.{
  ℕ, String, Bool, true, false, ◌&&◌, ◌||◌, Option, none, some, List, ltb, ◌==◌, is_equal, nat_eq,
  nat_beq, string_eq, if◌then◌else◌, ◌≡◌, refl, ◌⊎◌, inl, inr,
}
use fuze.Prelude.Sets.{unique}
use fuze.Prelude.Texts.{join, starts_with, trim_left, trim_right, text_or, is_empty}

-- botocore's ClientError: `Error.Code` and `HTTPStatusCode`
pub record ClientError : Type 0 where
  pub error_code : String
  pub http_status : Option ℕ

-- how a call ends
pub data Reply {ℓ} (A : Type ℓ) : Type ℓ where
  reply : A → Reply A
  client_error : ClientError → Reply A
  raised : Reply A

pub Reply-cases {ℓ} :
    {A : Type ℓ} (r : Reply A)
    → ((a : A) × (r ≡ Reply.reply a))
      ⊎ ((r ≡ Reply.raised) ⊎ ((e : ClientError) × (r ≡ Reply.client_error e)))
Reply-cases (Reply.reply a) = inl (a, refl)
Reply-cases Reply.raised = inr (inl refl)
Reply-cases (Reply.client_error e) = inr (inr (e, refl))

-- the parts of the answer to HEAD that are read
pub record Head : Type 0 where
  pub content_type : Option String
  pub content_length : Option ℕ
  pub etag : Option String
  pub sha256 : Option String

pub record S3 (S : Type 0) : Type 0 where
  pub head_bucket : S → Reply (Unit {0})
  pub create_bucket : S → Reply (Unit {0}) × S
  pub head_object : String → S → Reply Head
  pub upload : String → ℕ → String → String → S → Reply (Unit {0}) × S
  pub delete_object : String → S → Reply (Unit {0}) × S
  pub list_keys : S → Reply (List String)
  pub generate_presigned_url : String → ℕ → S → Reply String

-- `endpoint_url` of `_build_client_kwargs`: the settings of the internal or of the external endpoint
pub record Endpoints : Type 0 where
  pub endpoint : String
  pub external_endpoint : String
  pub secure : Bool
  pub external_secure : Option Bool

unfoldable pub endpoint_url : Endpoints → Bool → String
unfolding starts_with join
endpoint_url e external =
    let endpoint = if external then e.external_endpoint else e.endpoint in
    let secure =
      if external then elim e.external_secure [ some b ↦ b | none ↦ e.secure ] else e.secure in
    if starts_with "http://" endpoint || starts_with "https://" endpoint
    then endpoint
    else join (if secure then "https" else "http") (join "://" endpoint)

unfoldable pub is_missing : ClientError → Bool
is_missing e =
    e.error_code == "404"
    || (e.error_code == "NoSuchBucket"
        || (e.error_code == "NoSuchKey"
            || (e.error_code == "NotFound" || is_equal e.http_status 404)))

pub record ObjectMetadata : Type 0 where
  pub content_type : String
  pub content_length : ℕ
  pub etag : Option String
  pub checksum : Option String

-- `int(result.get("ContentLength", 0))`
abbrev pub length_of : Head → ℕ
length_of h = elim h.content_length [ some n ↦ n | none ↦ 0 ]

abbrev is_double_quote : Char → Bool
is_double_quote c = nat_beq (code c) 34

-- `str(etag).strip('"')`, where there is one
abbrev strip_etag : Option String → Option String
strip_etag none = none
strip_etag (some e) =
    if is_empty e then none else some (trim_right is_double_quote (trim_left is_double_quote e))

unfoldable pub metadata_of : Head → ObjectMetadata
metadata_of h = record {
  content_type = text_or h.content_type "application/octet-stream";
  content_length = length_of h;
  etag = strip_etag h.etag;
  checksum = h.sha256;
}

-- the file on the worker: its size and its digest, or none where it is not there
abbrev pub LocalFile : Type 0
LocalFile = Option (ℕ × String)

-- the HEAD after an upload: the object has the size of the file
unfoldable pub verify_size : String → ℕ → Reply Head → Reply String
verify_size object_name size (Reply.reply h) =
    if is_equal h.content_length size then Reply.reply object_name else Reply.raised
verify_size object_name size (Reply.client_error e) = Reply.client_error e
verify_size object_name size Reply.raised = Reply.raised

unfoldable pub exists_in : Reply Head → Reply Bool
unfolding is_missing
exists_in (Reply.reply h) = Reply.reply (ltb 0 (length_of h))
exists_in (Reply.client_error e) = if is_missing e then Reply.reply false else Reply.client_error e
exists_in Reply.raised = Reply.raised

-- `expires_seconds or settings.MINIO_PRESIGNED_TTL_SECONDS`
abbrev pub ttl_or : Option ℕ → ℕ → ℕ
ttl_or none d = d
ttl_or (some n) d = if n == 0 then d else n

module _ {S : Type 0} (s3 : S3 S) where
  unfoldable pub storage_ready : S → Bool
  storage_ready s = elim (s3.head_bucket s) [ reply _ ↦ true | _ ↦ false ]

  -- the creation of the bucket after a failed HEAD
  unfoldable pub provision : Reply (Unit {0}) → S → Reply (Unit {0}) × Bool × S
  unfolding is_missing
  provision (Reply.reply _) s = (Reply.reply tt, true, s)
  provision Reply.raised s = (Reply.raised, false, s)
  provision (Reply.client_error e) s =
      if is_missing e
      then (let (r, s') = s3.create_bucket s in
          elim r [
            | reply _ ↦ (Reply.reply tt, true, s')
            | client_error f ↦ (Reply.client_error f, false, s')
            | raised ↦ (Reply.raised, false, s')
          ])
      else (Reply.client_error e, false, s)

  -- `ensure_bucket`, with `_bucket_ready`
  unfoldable pub ensure_bucket : Bool → S → Reply (Unit {0}) × Bool × S
  unfolding provision
  ensure_bucket true s = (Reply.reply tt, true, s)
  ensure_bucket false s = provision (s3.head_bucket s) s

  unfoldable pub upload_found : String → String → ℕ → String → S → Reply String × S
  unfolding verify_size
  upload_found object_name content_type size digest s =
      let (r, s') = s3.upload object_name size digest content_type s in
      elim r [
        | reply _ ↦ (verify_size object_name size (s3.head_object object_name s'), s')
        | client_error e ↦ (Reply.client_error e, s')
        | raised ↦ (Reply.raised, s')
      ]

  unfoldable pub upload_file : LocalFile → String → String → S → Reply String × S
  unfolding upload_found
  upload_file none object_name content_type s = (Reply.raised, s)
  upload_file (some (size, digest)) object_name content_type s =
      if size == 0 then (Reply.raised, s) else upload_found object_name content_type size digest s

  unfoldable pub object_exists : String → S → Reply Bool
  unfolding exists_in
  object_exists object_name s = exists_in (s3.head_object object_name s)

  unfoldable pub get_object_metadata : String → S → Reply ObjectMetadata
  unfolding metadata_of
  get_object_metadata object_name s = elim (s3.head_object object_name s) [
    | reply h ↦ Reply.reply (metadata_of h)
    | client_error e ↦ Reply.client_error e
    | raised ↦ Reply.raised
  ]

  -- the keys of all pages, as a set
  unfoldable pub list_object_keys : S → Reply (List String)
  unfolding unique
  list_object_keys s = elim (s3.list_keys s) [
    | reply keys ↦ Reply.reply (unique keys)
    | client_error e ↦ Reply.client_error e
    | raised ↦ Reply.raised
  ]

  unfoldable pub delete_object : String → S → Reply (Unit {0}) × S
  delete_object object_name s = s3.delete_object object_name s

  -- a missing object raises FileNotFoundError
  unfoldable pub get_presigned_url : ℕ → String → Option ℕ → S → Reply String
  unfolding object_exists
  get_presigned_url ttl object_name expires_seconds s = elim (object_exists object_name s) [
    | reply true ↦ s3.generate_presigned_url object_name (ttl_or expires_seconds ttl) s
    | reply false ↦ Reply.raised
    | client_error e ↦ Reply.client_error e
    | raised ↦ Reply.raised
  ]
