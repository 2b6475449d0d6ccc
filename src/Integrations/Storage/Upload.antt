-- ===== src/Integrations/Storage/Upload.antt =====
-- What `upload_file` leaves for the readers of the store.
use fuze.Prelude.{
  ℕ, String, true, false, Option, none, some, ◌≡◌, refl, ◌<◌, arith, ◌==◌, nat_eq, nat_beq_iff,
  Bool-cases, inl, inr, sym, ap, ◌∙◌, Option-cases,
}
use fuze.Integrations.Storage.{
  S3, Reply, Reply-cases, Head, LocalFile, ObjectMetadata, upload_file, upload_found, verify_size,
  object_exists, exists_in, get_object_metadata, metadata_of, get_presigned_url, ttl_or,
}

verify_size_won :
    (object_name name : String) (size : ℕ) (r : Reply Head)
    → verify_size object_name size r ≡ Reply.reply name
    → (name ≡ object_name) × ((h : Head) × (r ≡ Reply.reply h) × (h.content_length ≡ some size))
unfolding verify_size
verify_size_won object_name name size (Reply.reply h) won = elim (Option-cases h.content_length) [
  | inl bare ↦ absurd (ground (arith, bare, won))
  | inr (n, sized) ↦ elim (Bool-cases (n == size)) [
    | inl same ↦
        (ground (arith, sized, same, won), (h, refl, sized ∙ ap some ((nat_beq_iff n size).0 same)))
    | inr other ↦ absurd (ground (arith, sized, other, won))
  ]
]
verify_size_won object_name name size (Reply.client_error e) won = absurd (cc)
verify_size_won object_name name size Reply.raised won = absurd (cc)

module _ {S : Type 0} (s3 : S3 S) where
  upload_found_won :
      (object_name content_type digest name : String) (size : ℕ) (s : S)
      → (upload_found s3 object_name content_type size digest s).0 ≡ Reply.reply name
      → verify_size object_name size
          (s3.head_object object_name (upload_found s3 object_name content_type size digest s).1)
        ≡ Reply.reply name
  unfolding upload_found
  upload_found_won object_name content_type digest name size s won =
      elim (Reply-cases (s3.upload object_name size digest content_type s).0) [
        | inl (a, good) ↦ rw (good, upload_found) (rw (good, upload_found) at won)
        | inr (inl bad) ↦ absurd (ground (arith, bad, won))
        | inr (inr (e, bad)) ↦ absurd (ground (arith, bad, won))
      ]

  upload_file_won :
      (file : LocalFile) (object_name content_type name : String) (s : S)
      → (upload_file s3 file object_name content_type s).0 ≡ Reply.reply name
      → (size : ℕ) × (digest : String) × (file ≡ some (size, digest))
        × ((size == 0) ≡ false)
        × (upload_file s3 file object_name content_type s
            ≡ upload_found s3 object_name content_type size digest s)
  unfolding upload_file
  upload_file_won none object_name content_type name s won = absurd (cc)
  upload_file_won (some (size, digest)) object_name content_type name s won =
      elim (Bool-cases (size == 0)) [
        | inl empty ↦ absurd (ground (arith, empty, won))
        | inr full ↦ (size, digest, refl, full, rw full refl)
      ]

  module _ (object_name : String) (s : S) (h : Head) (size : ℕ) (full : (size == 0) ≡ false)
      (head : s3.head_object object_name s ≡ Reply.reply h)
      (sized : h.content_length ≡ some size) where
    head-object_exists : object_exists s3 object_name s ≡ Reply.reply true
    unfolding object_exists exists_in
    head-object_exists = rw head (ground (arith, sized, full))

    head-metadata : get_object_metadata s3 object_name s ≡ Reply.reply (metadata_of h)
    unfolding get_object_metadata
    head-metadata = rw (head, get_object_metadata) refl

    metadata-size : (metadata_of h).content_length ≡ size
    unfolding metadata_of
    metadata-size = ground (arith, sized)

    head-get_presigned_url :
        (ttl : ℕ) (expires : Option ℕ)
        → get_presigned_url s3 ttl object_name expires s
          ≡ s3.generate_presigned_url object_name (ttl_or expires ttl) s
    unfolding get_presigned_url
    head-get_presigned_url ttl expires = rw (head-object_exists, get_presigned_url) refl

  -- An upload that succeeds returns the name of the object and was of a file that is not empty. In
  -- the state that it leaves, HEAD finds the object with the size of the file, and a request for a
  -- presigned URL of it passes the HEAD check and ends as the store's signer does, with the
  -- validity that was asked for or the default.
  pub upload_file-object_exists :
      (file : LocalFile) (object_name content_type name : String) (s : S)
      → (upload_file s3 file object_name content_type s).0 ≡ Reply.reply name
      → let s' = (upload_file s3 file object_name content_type s).1 in
        (name ≡ object_name)
        × (object_exists s3 object_name s' ≡ Reply.reply true)
        × ((m : ObjectMetadata) × (digest : String) × (get_object_metadata s3 object_name s'
              ≡ Reply.reply m)
            × (file ≡ some (m.content_length, digest))
            × (0 < m.content_length))
        × ((ttl : ℕ) (expires : Option ℕ)
            → get_presigned_url s3 ttl object_name expires s'
              ≡ s3.generate_presigned_url object_name (ttl_or expires ttl) s')
  upload_file-object_exists file object_name content_type name s won =
      let (size, digest, there, full, same) =
        upload_file_won file object_name content_type name s won in
      let found =
        upload_found_won object_name content_type digest name size s
          (ap (λ r. r.0) (sym same) ∙ won) in
      let (named, (h, head, sized)) = verify_size_won object_name name size _ found in
      let s' = (upload_found s3 object_name content_type size digest s).1 in
      let length = metadata-size object_name s' h size full head sized in
      rw same (
        named,
        head-object_exists object_name s' h size full head sized,
        (
          metadata_of h,
          digest,
          head-metadata object_name s' h size full head sized,
          rw length there,
          rw length (ground (arith, full)),
        ),
        head-get_presigned_url object_name s' h size full head sized,
      )
