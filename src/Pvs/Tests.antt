-- ===== src/Pvs/Tests.antt =====
-- A small digest and a small archive, a file that is written, read and damaged, and the theorems at them.
use pavis.Prelude.{
  ℕ, ◌+◌, ◌≤◌, false, not, List, [], ◌∷◌, ◌++◌, length, take, any, ◌==◌, ◌≡◌, refl, arith,
}
use pavis.Pvs.{
  pavis_magic, pavis_version, pavis_hash_algorithm_sha256, header_size, max_payload_size, PvsResult,
  ok, err, checksum_mismatch, to_hex, ◌>>=◌, PvsHeader, compute_checksum, new_header, verify_bytes,
  read_verified_file, verify, load, encode,
}
use pavis.Pvs.Accepted.{StandsIn, accepted_is_intact}
use pavis.Pvs.Streaming.{file_of, read_verified_file-streams}
use pavis.Pvs.Sample.{
  filled, digest, digest-IsIncremental, digest_wide, rkyv, rkyv-IsFaithful, header, file_bytes,
  verified,
}
use pavis.Pvs.RoundTrip.{load-encode}

-- A payload that was cut off is refused.
damaged :
    verify_bytes digest (take 65 file_bytes)
    ≡ err (checksum_mismatch (to_hex (filled 32 (7 ∷ 9 ∷ []))) (to_hex (filled 32 (7 ∷ []))))
unfolding verify_bytes
damaged = refl

accepted_is_intact_example :
    (file_bytes ≡ take header_size file_bytes ++ 7 ∷ 9 ∷ [])
    × (header_size ≤ length file_bytes)
    × (length file_bytes ≤ header_size + max_payload_size)
    × (header.magic ≡ pavis_magic)
    × (header.version ≡ pavis_version)
    × (header.algorithm ≡ pavis_hash_algorithm_sha256)
    × (any (λ byte. not (byte == 0)) header.reserved ≡ false)
    × (header.checksum ≡ compute_checksum digest (7 ∷ 9 ∷ []))
    × StandsIn header (take header_size file_bytes)
accepted_is_intact_example = accepted_is_intact digest file_bytes (7 ∷ 9 ∷ []) header verified

read_verified_file-streams_example :
    read_verified_file digest (file_of file_bytes ((7 ∷ []) ∷ (9 ∷ []) ∷ [])) ≡ (
      verify_bytes digest file_bytes
      >>= (λ v. let r : PvsResult (PvsHeader × List ℕ) = ok (v.0, file_bytes) in r))
read_verified_file-streams_example =
    read_verified_file-streams digest digest-IsIncremental file_bytes ((7 ∷ []) ∷ (9 ∷ []) ∷ [])
      (tt, (tt, tt)) refl

load-encode_example :
    (buf : List ℕ) × (encode digest rkyv 7 ≡ ok buf)
    × (verify digest rkyv buf
        ≡ ok (record { header = new_header (compute_checksum digest (7 ∷ 9 ∷ [])); bytes = buf }))
    × (load digest rkyv (file_of buf ((7 ∷ 9 ∷ []) ∷ [])) ≡ ok 7)
load-encode_example =
    load-encode digest digest-IsIncremental digest_wide rkyv rkyv-IsFaithful 7 (7 ∷ 9 ∷ [])
      ((7 ∷ 9 ∷ []) ∷ []) refl (omega arith) (tt, tt) refl
