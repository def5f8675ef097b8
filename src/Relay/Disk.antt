-- ===== src/Relay/Disk.antt =====
-- The files under the storage root, and actions on them of which each step can fail, or be the last
-- one before a crash. A write goes to a temporary file that is then renamed, so that it happens as a
-- whole; temporary files have no name that is read back and are left out.
pub mod Hoare
use pavis.Prelude.{Bool, true, false, ℕ, Option, none, some, List, [], ◌∷◌}
use pavis.Prelude.Text.{Text}
use pavis.Prelude.HashMap.{lookup, remove, replace}

-- The entries of `history` carry their names.
pub data File : Type 0 where
  lkg_artifact lkg_metadata state_json : File
  history : (name : Text) → File

pub record Disk : Type 0 where
  pub artifact : Option (List ℕ)
  pub metadata : Option (List ℕ)
  pub state : Option (List ℕ)
  pub entries : List (Text × List ℕ)

pub data Fault : Type 0 where
  works fails crashes : Fault

-- An error leaves what was written before it, and so does a crash.
pub data Run (A : Type 0) : Type 0 where
  done : A → Disk → List Fault → Run A
  failed : Disk → List Fault → Run A
  crashed : Disk → Run A

abbrev pub Io : Type 0 → Type 0
Io A = Disk → List Fault → Run A

abbrev pub return : {A : Type 0} → A → Io A
return a d fs = done a d fs

abbrev pub fail : {A : Type 0} → Io A
fail d fs = failed d fs

abbrev pub and_then : {A B : Type 0} → Run A → (A → Io B) → Run B
and_then (done a d fs) k = k a d fs
and_then (failed d fs) k = failed d fs
and_then (crashed d) k = crashed d

infixr 5 ◌>>=◌
abbrev pub ◌>>=◌ : {A B : Type 0} → Io A → (A → Io B) → Io B
(m >>= k) d fs = and_then (m d fs) k

infixr 5 ◌>>◌
abbrev pub ◌>>◌ : {A B : Type 0} → Io A → Io B → Io B
(m >> k) d fs = and_then (m d fs) (λ _. k)

-- The `Result` as a value.
abbrev pub caught : {A : Type 0} → Run A → Run (Option A)
caught (done a d fs) = done (some a) d fs
caught (failed d fs) = done none d fs
caught (crashed d) = crashed d

abbrev pub tried : {A : Type 0} → Io A → Io (Option A)
tried m d fs = caught (m d fs)

abbrev pub ok_or : {A : Type 0} → Option A → Io A
ok_or none = fail
ok_or (some a) = return a

-- One call of the file system; a crash comes before it has an effect.
abbrev pub step : Io (Unit)
step d [] = done tt d []
step d (works ∷ fs) = done tt d fs
step d (fails ∷ fs) = failed d fs
step d (crashes ∷ fs) = crashed d

abbrev pub content : File → Disk → Option (List ℕ)
content lkg_artifact d = d.artifact
content lkg_metadata d = d.metadata
content state_json d = d.state
content (history name) d = lookup name d.entries

abbrev pub set_file : File → Option (List ℕ) → Disk → Disk
set_file lkg_artifact c d = record {
  artifact = c;
  metadata = d.metadata;
  state = d.state;
  entries = d.entries;
}
set_file lkg_metadata c d = record {
  artifact = d.artifact;
  metadata = c;
  state = d.state;
  entries = d.entries;
}
set_file state_json c d = record {
  artifact = d.artifact;
  metadata = d.metadata;
  state = c;
  entries = d.entries;
}
set_file (history name) none d = record {
  artifact = d.artifact;
  metadata = d.metadata;
  state = d.state;
  entries = remove name d.entries;
}
set_file (history name) (some bytes) d = record {
  artifact = d.artifact;
  metadata = d.metadata;
  state = d.state;
  entries = replace name bytes d.entries;
}

abbrev pub write_atomic : File → List ℕ → Io (Unit)
write_atomic file contents = step >> (λ d fs. done tt (set_file file (some contents) d) fs)

abbrev pub read_if_present : File → Io (Option (List ℕ))
read_if_present file = step >> (λ d fs. done (content file d) d fs)

-- `let _ = fs::remove_file(path);`.
abbrev pub try_remove : File → Io (Unit)
try_remove file = tried (step >> (λ d fs. done tt (set_file file none d) fs)) >> return tt
