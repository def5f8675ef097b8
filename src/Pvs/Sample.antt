-- ===== src/Pvs/Sample.antt =====
-- A small digest, a small archive, and a file of one configuration.
use mathlib.Core.Path.{subst}
use mathlib.Core.Option.{some-injective}
use mathlib.Core.List.{append_assoc, append-nil}
use pavis.Prelude.{ℕ, zero, suc, Option, none, some, List, [], ◌∷◌, ◌++◌, length, ◌≡◌, refl, arith}
use pavis.Pvs.{
  pavis_magic, ok, Digest, Rkyv, PvsHeader, compute_checksum, verify_bytes, verify, encode,
}
use pavis.Pvs.Streaming.{IsIncremental}
use pavis.Pvs.RoundTrip.{IsFaithful}

abbrev pub filled : ℕ → List ℕ → List ℕ
filled zero xs = []
filled (suc n) [] = 0 ∷ filled n []
filled (suc n) (x ∷ xs) = x ∷ filled n xs

filled-length : (n : ℕ) (xs : List ℕ) → length (filled n xs) ≡ n
filled-length zero xs = refl
filled-length (suc n) [] = omega (arith, filled-length n [])
filled-length (suc n) (x ∷ xs) = omega (arith, filled-length n xs)

-- The checksum is the first 32 bytes.
abbrev pub digest : Digest
digest = record {
  Hasher = List ℕ;
  init = [];
  update = λ h bs. h ++ bs;
  finalize = λ h. filled 32 h;
}

pub digest-IsIncremental : IsIncremental digest
digest-IsIncremental = record { nothing = λ h. append-nil h; twice = λ h a b. append_assoc h a b }

pub digest_wide : (payload : List ℕ) → length (compute_checksum digest payload) ≡ 32
unfolding compute_checksum
digest_wide payload = filled-length 32 payload

abbrev pub only : List ℕ → Option ℕ
only (n ∷ _ ∷ []) = some n
only _ = none

-- A configuration is one byte, its archive that byte and another.
abbrev pub rkyv : Rkyv ℕ
rkyv = record {
  Archived = ℕ;
  to_bytes = λ n. some (n ∷ 9 ∷ []);
  access = only;
  deserialize = λ n. some n;
}

pub rkyv-IsFaithful : IsFaithful rkyv
rkyv-IsFaithful = record {
  access = λ config payload is.
      (config, subst (λ p. only p ≡ some config) (some-injective _ _ is) refl, refl);
}

abbrev pub header : PvsHeader
header = record {
  magic = pavis_magic;
  version = 0;
  algorithm = 1;
  checksum = filled 32 (7 ∷ 9 ∷ []);
  reserved = filled 20 [];
}

abbrev pub file_bytes : List ℕ
file_bytes =
    80
    ∷ 65
    ∷ 86
    ∷ 83
    ∷ 0
    ∷ 0
    ∷ 0
    ∷ 0
    ∷ 1
    ∷ 0
    ∷ 0
    ∷ 0
    ∷ (filled 32 (7 ∷ 9 ∷ []) ++ filled 20 [] ++ 7 ∷ 9 ∷ [])

pub encoded : encode digest rkyv 7 ≡ ok file_bytes
unfolding encode
encoded = refl

pub verified : verify_bytes digest file_bytes ≡ ok (header, 7 ∷ 9 ∷ [])
unfolding verify_bytes
verified = refl

pub accepts : verify digest rkyv file_bytes ≡ ok (record { header = header; bytes = file_bytes })
unfolding verify
accepts = rw (verify, verified) refl

-- The file of another configuration.
abbrev pub old_bytes : List ℕ
old_bytes =
    pavis_magic
    ++ (0 ∷ 0 ∷ 0 ∷ 0 ∷ 1 ∷ 0 ∷ 0 ∷ 0 ∷ [])
    ++ filled 32 (8 ∷ 9 ∷ [])
    ++ filled 20 []
    ++ 8 ∷ 9 ∷ []

abbrev pub old_header : PvsHeader
old_header = record header { checksum = filled 32 (8 ∷ 9 ∷ []) }

pub old_accepts : verify_bytes digest old_bytes ≡ ok (old_header, 8 ∷ 9 ∷ [])
unfolding verify_bytes
old_accepts = refl
