-- ===== src/Pvs/Accepted.antt =====
-- What a verified file is.
use mathlib.Core.Path.{subst}
use pavis.Prelude.{
  sym, ℕ, ◌+◌, ◌≤◌, false, not, List, ◌++◌, length, take, drop, any, ◌==◌, ◌≡◌, arith,
  take-append-drop,
}
use pavis.Prelude.Text.{text_eq→eq}
use mathlib.Core.Path.{refl}
use pavis.Pvs.{
  pavis_magic, pavis_version, pavis_hash_algorithm_sha256, header_size, max_payload_size, PvsResult,
  ok, err, ◌>>=◌, Digest, PvsHeader, from_le_bytes, parse_header, validate_header, check_size,
  check_checksum, compute_checksum, verify_bytes, Rkyv, VerifiedPvs, verify,
}

validate_header_lem :
    (h : PvsHeader)
    → validate_header h ≡ ok tt
    → (h.magic ≡ pavis_magic)
      × (h.version ≡ pavis_version)
      × (h.algorithm ≡ pavis_hash_algorithm_sha256)
      × (any (λ byte. not (byte == 0)) h.reserved ≡ false)
unfolding validate_header
validate_header_lem h e = ground (arith, text_eq→eq h.magic pavis_magic)

check_size_lem :
    (n : ℕ) → check_size n ≡ ok tt → (header_size ≤ n) × (n ≤ header_size + max_payload_size)
unfolding check_size
check_size_lem n e = ground arith

check_checksum_lem : (h : PvsHeader) (c : List ℕ) → check_checksum h c ≡ ok tt → h.checksum ≡ c
unfolding check_checksum
check_checksum_lem h c e = ground (arith, text_eq→eq c h.checksum)

-- A chain of checks that succeeds has passed each of them.
steps :
    (size : PvsResult {0} Unit) (parsed : PvsResult PvsHeader)
    (valid check : PvsHeader → PvsResult {0} Unit) (p payload : List ℕ) (h : PvsHeader)
    → (size >>= (λ _. parsed >>= (λ header. valid header >>= (λ _.
        check header >>= (λ _. let r : PvsResult (PvsHeader × List ℕ) = ok (header, p) in r)))))
      ≡ ok (h, payload)
    → (size ≡ ok tt) × (parsed ≡ ok h) × (valid h ≡ ok tt) × (check h ≡ ok tt) × (p ≡ payload)
steps (err x) parsed valid check p payload h e = cc
steps (ok u) (err x) valid check p payload h e = cc
steps (ok u) (ok k) valid check p payload h e = ground arith

-- The fields of a header stand in its 64 bytes one behind the other, numbers in little endian.
abbrev pub StandsIn : PvsHeader → List ℕ → Type 0
StandsIn h head =
    (h.magic ≡ take 4 head)
    × (h.version ≡ from_le_bytes (take 4 (drop 4 head)))
    × (h.algorithm ≡ from_le_bytes (take 4 (drop 8 head)))
    × (h.checksum ≡ take 32 (drop 12 head))
    × (h.reserved ≡ take 20 (drop 44 head))

parse_header-StandsIn : (head : List ℕ) (h : PvsHeader) → parse_header head ≡ ok h → StandsIn h head
unfolding parse_header
parse_header-StandsIn head h e = ground (arith, e)

module _ (digest : Digest) where
  -- Bytes that are accepted are at most the header and 100 MiB, and consist of a header and the
  -- payload. The header that is returned is what stands in the first 64 bytes, and has the magic
  -- bytes, the version, the algorithm, zeros in the reserved part and the checksum of the payload.
  pub accepted_is_intact :
      (buf payload : List ℕ) (h : PvsHeader)
      → verify_bytes digest buf ≡ ok (h, payload)
      → (buf ≡ take header_size buf ++ payload)
        × (header_size ≤ length buf)
        × (length buf ≤ header_size + max_payload_size)
        × (h.magic ≡ pavis_magic)
        × (h.version ≡ pavis_version)
        × (h.algorithm ≡ pavis_hash_algorithm_sha256)
        × (any (λ byte. not (byte == 0)) h.reserved ≡ false)
        × (h.checksum ≡ compute_checksum digest payload)
        × StandsIn h (take header_size buf)
  unfolding verify_bytes
  accepted_is_intact buf payload h e =
      let (size, parsed, valid, check, same) =
        steps (check_size (length buf)) (parse_header (take header_size buf)) validate_header
          (λ header. check_checksum header (compute_checksum digest (drop header_size buf)))
          (drop header_size buf) payload h e in
      let (least, most) = check_size_lem (length buf) size in
      let (magic, version, algorithm, reserved) = validate_header_lem h valid in
      let checksum = check_checksum_lem h (compute_checksum digest (drop header_size buf)) check in
      let split = take-append-drop header_size buf in
      (
        subst (λ x. buf ≡ take header_size buf ++ x) same (sym split),
        least,
        most,
        magic,
        version,
        algorithm,
        reserved,
        subst (λ x. h.checksum ≡ compute_checksum digest x) same checksum,
        parse_header-StandsIn (take header_size buf) h parsed,
      )

first :
    {A B : Type 0} (r : PvsResult A) (k : A → PvsResult B) {b : B}
    → (r >>= k) ≡ ok b
    → (a : A) × (r ≡ ok a)
first (ok a) k e = (a, refl)
first (err x) k e = cc

-- Bytes that `verify` accepts are accepted by `inspect`.
pub verify-verify_bytes :
    (digest : Digest) {Config : Type 0} (rkyv : Rkyv Config) (buf : List ℕ) (verified : VerifiedPvs)
    → verify digest rkyv buf ≡ ok verified
    → (read : PvsHeader × List ℕ) × (verify_bytes digest buf ≡ ok read)
unfolding verify
verify-verify_bytes digest rkyv buf verified e = first (verify_bytes digest buf) _ e
