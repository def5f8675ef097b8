-- ===== src/Pvs.antt =====
-- crates/pavis-pvs/src: the file format of a configuration, a header of 64 bytes with a checksum before
-- the archive of the configuration. The digest (the `sha2` crate) and the archive (the `rkyv` crate)
-- are parameters; a file is given by what its reads return.
pub mod Accepted
pub mod Streaming
pub mod RoundTrip
pub mod Sample
mod Tests
use pavis.Prelude.{
  ℕ, zero, suc, ◌+◌, ◌-◌, ◌*◌, ◌/◌, ◌%◌, ◌^◌, min, Bool, true, false, not, Option, none, some, List,
  [], ◌∷◌, ◌++◌, length, take, drop, any, ltb, leb, ◌==◌, if◌then◌else◌,
}
use pavis.Prelude.Text.{Text, bytes, text_eq}

abbrev pub pavis_magic : Text
pavis_magic = bytes "PAVS"

abbrev pub pavis_version : ℕ
pavis_version = 0

abbrev pub pavis_hash_algorithm_sha256 : ℕ
pavis_hash_algorithm_sha256 = 1

abbrev pub header_size : ℕ
header_size = 64

abbrev pub max_payload_size : ℕ
max_payload_size = 100 * 1024 * 1024

abbrev pub usize_max : ℕ
usize_max = 2 ^ 64 - 1

-- The messages of the crates are left out; the magic bytes stand as they were found.
pub data PvsError : Type 0 where
  io : PvsError
  too_small : (min actual : ℕ) → PvsError
  invalid_magic : (expected found : Text) → PvsError
  version_mismatch : (file expected : ℕ) → PvsError
  unsupported_algorithm : ℕ → PvsError
  non_zero_reserved_bytes : (version : ℕ) → PvsError
  checksum_mismatch : (expected found : Text) → PvsError
  corrupt_archive serialization : PvsError
  header_too_short : (expected found : ℕ) → PvsError
  payload_too_large : (max found : ℕ) → PvsError

pub data PvsResult {ℓ} (A : Type ℓ) : Type ℓ where
  ok : A → PvsResult A
  err : PvsError → PvsResult A

infixl 5 ◌>>=◌
abbrev pub ◌>>=◌ {ℓ κ} : {A : Type ℓ} {B : Type κ} → PvsResult A → (A → PvsResult B) → PvsResult B
ok a >>= f = f a
err e >>= f = err e

abbrev pub ok_or {ℓ} : {A : Type ℓ} → PvsError → Option A → PvsResult A
ok_or e none = err e
ok_or e (some a) = ok a

-- `Sha256`: a hasher takes bytes piece by piece.
pub record Digest : Type 1 where
  pub Hasher : Type 0
  pub init : Hasher
  pub update : Hasher → List ℕ → Hasher
  pub finalize : Hasher → List ℕ

-- `rkyv`: writing a configuration, checked access to an archive, and reading from that.
pub record Rkyv (Config : Type 0) : Type 1 where
  pub Archived : Type 0
  pub to_bytes : Config → Option (List ℕ)
  pub access : List ℕ → Option Archived
  pub deserialize : Archived → Option Config

pub record PvsHeader : Type 0 where
  pub magic : List ℕ
  pub version : ℕ
  pub algorithm : ℕ
  pub checksum : List ℕ
  pub reserved : List ℕ

pub from_le_bytes : List ℕ → ℕ
from_le_bytes [] = 0
from_le_bytes (b ∷ bs) = b + 256 * from_le_bytes bs

to_le_bytes : ℕ → List ℕ
to_le_bytes n = n % 256 ∷ n / 256 % 256 ∷ n / (256 * 256) % 256 ∷ n / (256 * 256 * 256) % 256 ∷ []

parse_header : List ℕ → PvsResult PvsHeader
unfolding from_le_bytes
parse_header buf =
    if ltb (length buf) header_size
    then err (header_too_short header_size (length buf))
    else ok (record {
      magic = take 4 buf;
      version = from_le_bytes (take 4 (drop 4 buf));
      algorithm = from_le_bytes (take 4 (drop 8 buf));
      checksum = take 32 (drop 12 buf);
      reserved = take 20 (drop 44 buf);
    })

validate_header : PvsHeader → PvsResult {0} Unit
validate_header h =
    if not (text_eq h.magic pavis_magic)
    then err (invalid_magic pavis_magic h.magic)
    else if not (h.version == pavis_version)
    then err (version_mismatch h.version pavis_version)
    else if any (λ byte. not (byte == 0)) h.reserved
    then err (non_zero_reserved_bytes h.version)
    else if not (h.algorithm == pavis_hash_algorithm_sha256)
    then err (unsupported_algorithm h.algorithm)
    else ok tt

-- A digit in hexadecimal, and two of them for each byte.
abbrev hex_digit : ℕ → ℕ
hex_digit d = if ltb d 10 then 48 + d else 87 + d

unfoldable pub to_hex : List ℕ → Text
to_hex [] = []
to_hex (b ∷ bs) = hex_digit (b / 16) ∷ hex_digit (b % 16) ∷ to_hex bs

-- What an opened file returns: its length, the first 64 bytes (or its length when it ended before
-- them), and the reads behind them, up to the end.
pub data HeaderRead : Type 0 where
  read_header_bytes : List ℕ → HeaderRead
  unexpected_eof : (len : Option ℕ) → HeaderRead
  header_error : HeaderRead

pub data ChunkRead : Type 0 where
  chunk : List ℕ → ChunkRead
  chunk_error : ChunkRead

pub record File : Type 0 where
  pub len : Option ℕ
  pub head : HeaderRead
  pub reads : List ChunkRead

read_header_buf : HeaderRead → PvsResult (List ℕ)
read_header_buf (read_header_bytes buf) = ok buf
read_header_buf (unexpected_eof none) = err io
read_header_buf (unexpected_eof (some len)) = err (too_small header_size len)
read_header_buf header_error = err io

-- `read_header` of a file that can be opened.
read_header : File → PvsResult PvsHeader
unfolding read_header_buf parse_header
read_header file = read_header_buf file.head >>= parse_header

check_size : ℕ → PvsResult {0} Unit
check_size n =
    if ltb n header_size
    then err (too_small header_size n)
    else if ltb (header_size + max_payload_size) n
    then err (payload_too_large max_payload_size (n - header_size))
    else ok tt

check_checksum : PvsHeader → List ℕ → PvsResult {0} Unit
unfolding to_hex
check_checksum h computed =
    if not (text_eq computed h.checksum)
    then err (checksum_mismatch (to_hex h.checksum) (to_hex computed))
    else ok tt

module _ (digest : Digest) where
  unfoldable pub compute_checksum : List ℕ → List ℕ
  compute_checksum payload = digest.finalize (digest.update digest.init payload)

  pub verify_bytes : List ℕ → PvsResult (PvsHeader × List ℕ)
  unfolding check_size parse_header validate_header compute_checksum check_checksum
  verify_bytes buf = check_size (length buf) >>= (λ _.
      parse_header (take header_size buf) >>= (λ header. validate_header header >>= (λ _.
        let payload = drop header_size buf in
        check_checksum header (compute_checksum payload) >>= (λ _. ok (header, payload)))))

  -- The loop of `read_verified_file`, from the hasher and the bytes it has gathered.
  read_payload : List ChunkRead → ℕ → digest.Hasher → List ℕ → PvsResult (digest.Hasher × List ℕ)
  read_payload [] payload_len hasher buf = ok (hasher, buf)
  read_payload (chunk_error ∷ reads) payload_len hasher buf = err io
  read_payload (chunk [] ∷ reads) payload_len hasher buf = ok (hasher, buf)
  read_payload (chunk (b ∷ bs) ∷ reads) payload_len hasher buf =
      let len = min (payload_len + length (b ∷ bs)) usize_max in
      let rest = read_payload reads len (digest.update hasher (b ∷ bs)) (buf ++ b ∷ bs) in
      if ltb max_payload_size len then err (payload_too_large max_payload_size len) else rest

  -- Of a file that can be opened.
  pub read_verified_file : File → PvsResult (PvsHeader × List ℕ)
  unfolding check_size read_header_buf parse_header validate_header read_payload check_checksum
  read_verified_file file =
      ok_or io file.len >>= check_size >>= (λ _. read_header_buf file.head) >>= (λ header_buf.
        parse_header header_buf >>= (λ header.
          validate_header header
          >>= (λ _. read_payload file.reads 0 digest.init header_buf)
          >>= (λ read.
              let (hasher, buf) = read in
              check_checksum header (digest.finalize hasher) >>= (λ _. ok (header, buf)))))

pub record VerifiedPvs : Type 0 where
  pub header : PvsHeader
  pub bytes : List ℕ

abbrev zeros : ℕ → List ℕ
zeros zero = []
zeros (suc n) = 0 ∷ zeros n

header_bytes : PvsHeader → List ℕ
unfolding to_le_bytes
header_bytes h =
    h.magic ++ (to_le_bytes h.version ++ (to_le_bytes h.algorithm ++ (h.checksum ++ h.reserved)))

-- The header that `encode` writes.
pub new_header : List ℕ → PvsHeader
new_header checksum = record {
  magic = pavis_magic;
  version = pavis_version;
  algorithm = pavis_hash_algorithm_sha256;
  checksum = checksum;
  reserved = zeros 20;
}

module _ (digest : Digest) {Config : Type 0} (rkyv : Rkyv Config) where
  access : List ℕ → PvsResult rkyv.Archived
  access payload = ok_or corrupt_archive (rkyv.access payload)

  pub verify : List ℕ → PvsResult VerifiedPvs
  unfolding access
  verify buf = verify_bytes digest buf >>= (λ verified.
      access verified.1 >>= (λ _. ok (record { header = verified.0; bytes = buf })))

  pub read_from_path : File → PvsResult VerifiedPvs
  unfolding access
  read_from_path file = read_verified_file digest file >>= (λ read.
      access (drop header_size read.1) >>= (λ _. ok (record { header = read.0; bytes = read.1 })))

  pub load : File → PvsResult Config
  unfolding access
  load file = read_verified_file digest file >>= (λ read.
      access (drop header_size read.1)
      >>= (λ archived. ok_or corrupt_archive (rkyv.deserialize archived)))

  pub encode : Config → PvsResult (List ℕ)
  unfolding header_bytes new_header compute_checksum
  encode config =
      ok_or serialization (rkyv.to_bytes config)
      >>= (λ payload. ok (header_bytes (new_header (compute_checksum digest payload)) ++ payload))
