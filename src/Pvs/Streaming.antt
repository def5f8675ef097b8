-- ===== src/Pvs/Streaming.antt =====
-- Reading a file piece by piece, beside verifying its bytes at once.
use mathlib.Core.List.{append_assoc, append-nil}
use pavis.Prelude.{
  ℕ, zero, suc, ◌-◌, ◌+◌, ◌≤◌, min, Bool, true, false, List, [], ◌∷◌, ◌++◌, All, length, take, drop,
  map, ltb, ◌≡◌, ◌⊎◌, inl, inr, refl, sym, ap, if◌then◌else◌, some, length-append, take-append-drop,
  arith,
}
use pavis.Pvs.{
  header_size, usize_max, max_payload_size, PvsError, PvsResult, ok, err, ◌>>=◌, Digest, PvsHeader,
  File, chunk, read_header_bytes, unexpected_eof, read_payload, verify_bytes, read_verified_file,
  check_size, parse_header, validate_header, check_checksum,
}

-- Updating a hasher piece by piece is updating it with all pieces behind each other.
pub record IsIncremental (digest : Digest) : Type 0 where
  pub nothing : (h : digest.Hasher) → digest.update h [] ≡ h
  pub twice :
      (h : digest.Hasher) (a b : List ℕ)
      → digest.update (digest.update h a) b ≡ digest.update h (a ++ b)

abbrev pub concat : List (List ℕ) → List ℕ
concat [] = []
concat (c ∷ cs) = c ++ concat cs

abbrev pub IsNonEmpty : List ℕ → Type 0
IsNonEmpty [] = ◌≡◌ {A = Bool} true false
IsNonEmpty (b ∷ bs) = Unit

-- A file with some bytes whose part behind the header is read in some chunks.
abbrev pub file_of : List ℕ → List (List ℕ) → File
file_of buf chunks = record {
  len = some (length buf);
  head =
      if ltb (length buf) header_size
      then unexpected_eof (some (length buf))
      else read_header_bytes (take header_size buf);
  reads = map chunk chunks;
}

check_size-cases :
    (n : ℕ)
    → ((check_size n ≡ ok tt) × (ltb n header_size ≡ false) × (n ≤ header_size + max_payload_size))
      ⊎ ((e : PvsError) × (check_size n ≡ err e))
unfolding check_size
check_size-cases n = ground arith

length-drop : (n : ℕ) (xs : List ℕ) → length (drop n xs) ≡ length xs - n
length-drop zero xs = omega arith
length-drop (suc n) [] = omega arith
length-drop (suc n) (x ∷ xs) = omega (arith, length-drop n xs)

module _ (digest : Digest) (incremental : IsIncremental digest) where
  read_payload_lem :
      (chunks : List (List ℕ)) (n : ℕ) (hasher : digest.Hasher) (buf : List ℕ)
      → All IsNonEmpty chunks
      → n + length (concat chunks) ≤ max_payload_size
      → read_payload digest (map chunk chunks) n hasher buf
        ≡ ok (digest.update hasher (concat chunks), buf ++ concat chunks)
  unfolding read_payload
  read_payload_lem [] n hasher buf full le = rw (incremental.nothing hasher, append-nil buf) refl
  read_payload_lem ([] ∷ chunks) n hasher buf (full, fulls) le = cc
  read_payload_lem ((b ∷ bs) ∷ chunks) n hasher buf (full, fulls) le =
      let piece = b ∷ bs in
      let size = length-append piece (concat chunks) in
      let exact : min (n + length piece) usize_max ≡ n + length piece = omega (arith, size, le) in
      let small : ltb max_payload_size (n + length piece) ≡ false = ground (arith, size, le) in
      rw
        (
          exact,
          small,
          sym (incremental.twice hasher piece (concat chunks)),
          sym (append_assoc buf piece (concat chunks)),
        )
        (read_payload_lem chunks (n + length piece) (digest.update hasher piece) (buf ++ piece)
          fulls (omega (arith, size, le)))

abbrev Verified : Type 0
Verified = PvsResult (PvsHeader × List ℕ)

-- The checks behind the size, in the order of the file and in that of the bytes.
same_checks :
    {Hasher : Type 0} (parsed : PvsResult PvsHeader) (valid : PvsHeader → PvsResult {0} Unit)
    (check : PvsHeader → List ℕ → PvsResult {0} Unit) (finalize : Hasher → List ℕ) (hasher : Hasher)
    (buf payload : List ℕ)
    → ◌≡◌ {A = Verified}
        (parsed >>= (λ header.
          valid header
          >>= (λ _. let r : PvsResult (Hasher × List ℕ) = ok (hasher, buf) in r)
          >>= (λ read.
              check header (finalize read.0)
              >>= (λ _. let r : Verified = ok (header, read.1) in r))))
        (parsed
          >>= (λ header. valid header >>= (λ _.
              check header (finalize hasher)
              >>= (λ _. let r : Verified = ok (header, payload) in r)))
          >>= (λ verified. let r : Verified = ok (verified.0, buf) in r))
same_checks (err e) valid check finalize hasher buf payload = refl
same_checks (ok header) valid check finalize hasher buf payload = ground arith

module _ (digest : Digest) (incremental : IsIncremental digest) where
  gathered :
      (buf : List ℕ) (chunks : List (List ℕ))
      → All IsNonEmpty chunks
      → concat chunks ≡ drop header_size buf
      → length (concat chunks) ≤ max_payload_size
      → read_payload digest (map chunk chunks) 0 digest.init (take header_size buf)
        ≡ ok (digest.update digest.init (drop header_size buf), buf)
  gathered buf chunks full joined le =
      let read =
        read_payload_lem digest incremental chunks 0 digest.init (take header_size buf) full
          (omega (arith, le)) in
      let whole : take header_size buf ++ concat chunks ≡ buf =
        rw joined (take-append-drop header_size buf) in
      rw (read, whole, joined) refl

  -- With an incremental digest, whatever the chunks, none of them empty, in which the part of a file
  -- behind its header is read, reading the file succeeds or fails, with the same error, as verifying
  -- all its bytes at once, and returns the header and these bytes.
  pub read_verified_file-streams :
      (buf : List ℕ) (chunks : List (List ℕ))
      → All IsNonEmpty chunks
      → concat chunks ≡ drop header_size buf
      → read_verified_file digest (file_of buf chunks)
        ≡ (verify_bytes digest buf >>= (λ v. let r : Verified = ok (v.0, buf) in r))
  unfolding read_verified_file verify_bytes
  read_verified_file-streams buf chunks full joined = elim (check_size-cases (length buf)) [
    | inl (fits, least, most) ↦
        rw
          (
            fits,
            least,
            gathered buf chunks full joined
                (omega (arith, most, ap length joined, length-drop header_size buf)),
          )
          (same_checks (parse_header (take header_size buf)) validate_header check_checksum
            digest.finalize (digest.update digest.init (drop header_size buf)) buf
            (drop header_size buf))
    | inr (e, fails) ↦ rw fails refl
  ]
