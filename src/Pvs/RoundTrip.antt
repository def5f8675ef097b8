-- ===== src/Pvs/RoundTrip.antt =====
-- Writing a configuration and reading it.
use mathlib.Core.Path.{subst}
use pavis.Prelude.{
  ℕ, ◌+◌, ◌≤◌, false, some, List, [], ◌∷◌, ◌++◌, All, length, take, drop, ltb, ◌≡◌, refl, ◌∙◌, sym,
  length-append, arith,
}
use pavis.Prelude.Text.{text_eq_refl}
use pavis.Pvs.{
  header_size, max_payload_size, ok, Digest, Rkyv, parse_header, validate_header, check_size,
  check_checksum, compute_checksum, verify_bytes, read_verified_file, verify, load, header_bytes,
  new_header, encode, zeros,
}
use pavis.Pvs.Streaming.{IsIncremental, concat, IsNonEmpty, file_of, read_verified_file-streams}

take-append : {A : Type 0} (xs ys : List A) → take (length xs) (xs ++ ys) ≡ xs
take-append [] ys = refl
take-append (x ∷ xs) ys = rw (take-append xs ys) refl

drop-append : {A : Type 0} (xs ys : List A) → drop (length xs) (xs ++ ys) ≡ ys
drop-append [] ys = refl
drop-append (x ∷ xs) ys = drop-append xs ys

check_size_fits :
    (n : ℕ) → header_size ≤ n → n ≤ header_size + max_payload_size → check_size n ≡ ok tt
unfolding check_size
check_size_fits n least most = ground arith

module _ (checksum : List ℕ) (len : length checksum ≡ 32) where
  header_bytes-length : length (header_bytes (new_header checksum)) ≡ header_size
  unfolding header_bytes new_header
  header_bytes-length = omega (arith, len, length-append checksum (zeros 20))

  parse-header_bytes : parse_header (header_bytes (new_header checksum)) ≡ ok (new_header checksum)
  unfolding parse_header header_bytes new_header
  parse-header_bytes =
      let long : ltb (length (header_bytes (new_header checksum))) header_size ≡ false =
        ground (arith, header_bytes-length) in
      let taken : take 32 (checksum ++ zeros 20) ≡ checksum =
        subst (λ n. take n (checksum ++ zeros 20) ≡ checksum) len
          (take-append checksum (zeros 20)) in
      let dropped : drop 32 (checksum ++ zeros 20) ≡ zeros 20 =
        subst (λ n. drop n (checksum ++ zeros 20) ≡ zeros 20) len
          (drop-append checksum (zeros 20)) in
      rw (long, taken, dropped) refl

  check_new_header :
      (validate_header (new_header checksum) ≡ ok tt)
      × (check_checksum (new_header checksum) checksum ≡ ok tt)
  unfolding validate_header new_header check_checksum
  check_new_header = (refl, rw (text_eq_refl checksum) refl)

module _ (digest : Digest)
    (wide : (payload : List ℕ) → length (compute_checksum digest payload) ≡ 32) where
  abbrev written : List ℕ → List ℕ
  written payload = header_bytes (new_header (compute_checksum digest payload)) ++ payload

  verify_bytes-written :
      (payload : List ℕ)
      → length payload ≤ max_payload_size
      → verify_bytes digest (written payload)
        ≡ ok (new_header (compute_checksum digest payload), payload)
  unfolding verify_bytes
  verify_bytes-written payload le =
      let checksum = compute_checksum digest payload in
      let header = header_bytes (new_header checksum) in
      let size = header_bytes-length checksum (wide payload) in
      let long = length-append header payload in
      let fits : check_size (length (header ++ payload)) ≡ ok tt =
        check_size_fits (length (header ++ payload)) (omega (arith, long, size))
          (omega (arith, long, size, le)) in
      let taken : take header_size (header ++ payload) ≡ header =
        subst (λ n. take n (header ++ payload) ≡ header) size (take-append header payload) in
      let dropped : drop header_size (header ++ payload) ≡ payload =
        subst (λ n. drop n (header ++ payload) ≡ payload) size (drop-append header payload) in
      let (valid, same) = check_new_header checksum (wide payload) in
      rw (fits, taken, dropped, parse-header_bytes checksum (wide payload), valid, same) refl

-- What is written is read back from its archive.
pub record IsFaithful {Config : Type 0} (rkyv : Rkyv Config) : Type 0 where
  pub access :
      (config : Config) (payload : List ℕ)
      → rkyv.to_bytes config ≡ some payload
      → (a : rkyv.Archived) × (rkyv.access payload ≡ some a) × (rkyv.deserialize a ≡ some config)

module _ (digest : Digest) (incremental : IsIncremental digest)
    (wide : (payload : List ℕ) → length (compute_checksum digest payload) ≡ 32) {Config : Type 0}
    (rkyv : Rkyv Config) (faithful : IsFaithful rkyv) where
  -- With an incremental digest of 32 bytes and a faithful archive, a configuration whose archive has
  -- at most 100 MiB is encoded to bytes that are verified, with the header of the archive's checksum;
  -- and a file with these bytes, in whatever chunks, none of them empty, its payload is read, is
  -- loaded as that configuration.
  pub load-encode :
      (config : Config) (payload : List ℕ) (chunks : List (List ℕ))
      → rkyv.to_bytes config ≡ some payload
      → length payload ≤ max_payload_size
      → All IsNonEmpty chunks
      → concat chunks ≡ payload
      → (buf : List ℕ) × (encode digest rkyv config ≡ ok buf)
        × (verify digest rkyv buf
            ≡ ok (record { header = new_header (compute_checksum digest payload); bytes = buf }))
        × (load digest rkyv (file_of buf chunks) ≡ ok config)
  unfolding encode verify load
  load-encode config payload chunks is le full joined =
      let buf = written digest wide payload in
      let (archived, accessed, read) = faithful.access config payload is in
      let header = header_bytes (new_header (compute_checksum digest payload)) in
      let size = header_bytes-length (compute_checksum digest payload) (wide payload) in
      let dropped : drop header_size buf ≡ payload =
        subst (λ n. drop n buf ≡ payload) size (drop-append header payload) in
      let verified = verify_bytes-written digest wide payload le in
      let streamed : read_verified_file digest (file_of buf chunks)
          ≡ ok (new_header (compute_checksum digest payload), buf) =
        read_verified_file-streams digest incremental buf chunks full (joined ∙ sym dropped)
        ∙ rw verified refl in
      (buf, rw is refl, rw (verified, accessed) refl, rw (streamed, dropped, accessed, read) refl)
