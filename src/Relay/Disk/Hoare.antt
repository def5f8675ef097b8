-- ===== src/Relay/Disk/Hoare.antt =====
-- What holds of an action when it is done, when it failed, and when it crashed.
use pavis.Prelude.{ℕ, Option, none, some, List, [], ◌∷◌}
use pavis.Relay.Disk.{
  File, Disk, Fault, works, fails, crashes, Run, done, failed, crashed, Io, and_then, caught, step,
  set_file, write_atomic, try_remove,
}

module _ {A : Type 0} (P : A → Disk → Type 0) (F C : Disk → Type 0) where
  abbrev pub Ends : Run A → Type 0
  Ends (done a d fs) = P a d
  Ends (failed d fs) = F d
  Ends (crashed d) = C d

pub Ends-weaken :
    {A : Type 0} (P : A → Disk → Type 0) (F C D : Disk → Type 0) (r : Run A)
    → Ends P F C r
    → ((d : Disk) → C d → D d)
    → Ends P F D r
Ends-weaken P F C D (done a d fs) h weaker = h
Ends-weaken P F C D (failed d fs) h weaker = h
Ends-weaken P F C D (crashed d) h weaker = weaker d h

pub Ends-map :
    {A : Type 0} (P Q : A → Disk → Type 0) (F C D : Disk → Type 0) (r : Run A)
    → Ends P F C r
    → ((a : A) (d : Disk) → P a d → Q a d)
    → ((d : Disk) → C d → D d)
    → Ends Q F D r
Ends-map P Q F C D (done a d fs) h weaker crash = weaker a d h
Ends-map P Q F C D (failed d fs) h weaker crash = h
Ends-map P Q F C D (crashed d) h weaker crash = crash d h

pub Ends-and_then :
    {A B : Type 0} (P : A → Disk → Type 0) (Q : B → Disk → Type 0) (F C : Disk → Type 0)
    (k : A → Io B) (r : Run A)
    → Ends P F C r
    → ((a : A) (d : Disk) (fs : List Fault) → P a d → Ends Q F C (k a d fs))
    → Ends Q F C (and_then r k)
Ends-and_then P Q F C k (done a d fs) h next = next a d fs h
Ends-and_then P Q F C k (failed d fs) h next = h
Ends-and_then P Q F C k (crashed d) h next = h

pub tried_then :
    {A B : Type 0} (P : A → Disk → Type 0) (Q : B → Disk → Type 0) (F G C : Disk → Type 0)
    (k : Option A → Io B) (r : Run A)
    → Ends P F C r
    → ((a : A) (d : Disk) (fs : List Fault) → P a d → Ends Q G C (k (some a) d fs))
    → ((d : Disk) (fs : List Fault) → F d → Ends Q G C (k none d fs))
    → Ends Q G C (and_then (caught r) k)
tried_then P Q F G C k (done a d fs) h on_some on_none = on_some a d fs h
tried_then P Q F G C k (failed d fs) h on_some on_none = on_none d fs h
tried_then P Q F G C k (crashed d) h on_some on_none = h

-- A step changes nothing, and a write either nothing or one file; then goes on as `k`.
module _ {B : Type 0} (Q : B → Disk → Type 0) (F C : Disk → Type 0) where
  pub step_then :
      (k : Unit → Io B) (d : Disk) (fs : List Fault)
      → F d
      → C d
      → ((fs' : List Fault) → Ends Q F C (k tt d fs'))
      → Ends Q F C (and_then (step d fs) k)
  step_then k d [] f c next = next []
  step_then k d (works ∷ fs) f c next = next fs
  step_then k d (fails ∷ fs) f c next = f
  step_then k d (crashes ∷ fs) f c next = c

  pub write_then :
      (k : Unit → Io B) (file : File) (contents : List ℕ) (d : Disk) (fs : List Fault)
      → F d
      → C d
      → ((fs' : List Fault) → Ends Q F C (k tt (set_file file (some contents) d) fs'))
      → Ends Q F C (and_then (write_atomic file contents d fs) k)
  write_then k file contents d [] f c next = next []
  write_then k file contents d (works ∷ fs) f c next = next fs
  write_then k file contents d (fails ∷ fs) f c next = f
  write_then k file contents d (crashes ∷ fs) f c next = c

  pub try_remove_then :
      (k : Unit → Io B) (file : File) (d : Disk) (fs : List Fault)
      → C d
      → ((fs' : List Fault) → Ends Q F C (k tt d fs'))
      → ((fs' : List Fault) → Ends Q F C (k tt (set_file file none d) fs'))
      → Ends Q F C (and_then (try_remove file d fs) k)
  try_remove_then k file d [] c same next = next []
  try_remove_then k file d (works ∷ fs) c same next = next fs
  try_remove_then k file d (fails ∷ fs) c same next = same fs
  try_remove_then k file d (crashes ∷ fs) c same next = c

-- The last step.
pub step_last :
    (P F C : Disk → Type 0) (d : Disk) (fs : List Fault)
    → P d
    → F d
    → C d
    → Ends (λ _ d'. P d') F C (step d fs)
step_last P F C d [] p f c = p
step_last P F C d (works ∷ fs) p f c = p
step_last P F C d (fails ∷ fs) p f c = f
step_last P F C d (crashes ∷ fs) p f c = c
