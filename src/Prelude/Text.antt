-- ===== src/Prelude/Text.antt =====
-- Texts of the source (`str`, `String`, `CompactString`) as their UTF-8 bytes, and the byte tests
-- of the Rust standard library that the source uses.
use Prim.Native.Char.{code}
use Prim.Native.String.{String}
use mathlib.Core.Bool.{Bool, true, false, ◌&&◌}
use mathlib.Core.List.{List, [], ◌∷◌}
use mathlib.Core.Option
use mathlib.Core.Option.{Option, none, some}
use mathlib.Core.Logic.{◌↔◌}
use mathlib.Core.Path.{◌≡◌, refl}
use native.Mathlib.Omega.{arith}
use native.Mathlib.Decide.{ℕ_discrete}
use Prim.Native.Nat.{ℕ, ◌-◌}
use pavis.Prelude.Tests.{◌==◌, leb, if◌then◌else◌}
use pavis.Prelude.Lists.{length, take, drop, any}

abbrev pub Text : Type 0
Text = List ℕ

-- The bytes of an ASCII literal.
abbrev pub bytes : String → Text
bytes String.[] = []
bytes (String.◌∷◌ c s) = code c ∷ bytes s

pub Text-discrete : Discrete Text
Text-discrete = hlevel ℕ_discrete

abbrev pub text_eq : Text → Text → Bool
text_eq [] [] = true
text_eq (a ∷ s) (b ∷ t) = a == b && text_eq s t
text_eq _ _ = false

pub text_eq_refl : (s : Text) → text_eq s s ≡ true
text_eq_refl [] = refl
text_eq_refl (a ∷ s) = ground (arith, text_eq_refl s)

pub text_eq→eq : (s t : Text) → text_eq s t ≡ true → s ≡ t
text_eq→eq [] [] h = refl
text_eq→eq (a ∷ s) (b ∷ t) h = ground (arith, text_eq→eq s t)
text_eq→eq [] (b ∷ t) h = cc
text_eq→eq (a ∷ s) [] h = cc

pub text_eq_iff : (s t : Text) → (text_eq s t ≡ true) ↔ (s ≡ t)
text_eq_iff s t = (text_eq→eq s t, λ e. rw e (text_eq_refl t))

-- `s.starts_with(prefix)`.
abbrev pub starts_with : Text → Text → Bool
starts_with s [] = true
starts_with [] (p ∷ ps) = false
starts_with (a ∷ s) (p ∷ ps) = a == p && starts_with s ps

-- `s.strip_prefix(prefix)`.
abbrev pub strip_prefix : Text → Text → Option Text
strip_prefix s [] = some s
strip_prefix [] (p ∷ ps) = none
strip_prefix (a ∷ s) (p ∷ ps) = if a == p then strip_prefix s ps else none

-- `s.ends_with(suffix)` and `s.strip_suffix(suffix)`: the bytes at the end are compared.
abbrev pub ends_with : Text → Text → Bool
ends_with s suffix =
    leb (length suffix) (length s) && text_eq (drop (length s - length suffix) s) suffix

abbrev pub strip_suffix : Text → Text → Option Text
strip_suffix s suffix =
    if ends_with s suffix then some (take (length s - length suffix) s) else none

-- `s.contains(c)` for an ASCII character.
abbrev pub contains_byte : ℕ → Text → Bool
contains_byte c s = any (λ a. a == c) s

-- `s.split_once(c)` for an ASCII character: what stands before and behind its first occurrence.
abbrev pub split_once : ℕ → Text → Option (Text × Text)
split_once c [] = none
split_once c (a ∷ s) =
    let later = Option.map (λ (p : Text × Text). (a ∷ p.0, p.1)) (split_once c s) in
    if a == c then some ([], s) else later
