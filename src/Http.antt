-- ===== src/Http.antt =====
-- crates/pavis-core/src/runtime/routing.rs: the HTTP methods, and the case-insensitive comparison
-- of crates/pavis/src/router/matcher.rs.
use mathlib.Core.Bool.{cond}
use pavis.Prelude.{ℕ, ◌+◌, Bool, ◌&&◌, map, leb}
use pavis.Prelude.Text.{Text, bytes, text_eq}

pub data HttpMethod : Type 0 where
  get post put delete patch head options connect trace : HttpMethod

pub HttpMethod-discrete : Discrete HttpMethod
HttpMethod-discrete = hlevel

unfoldable pub as_str : HttpMethod → Text
as_str get = bytes "GET"
as_str post = bytes "POST"
as_str put = bytes "PUT"
as_str delete = bytes "DELETE"
as_str patch = bytes "PATCH"
as_str head = bytes "HEAD"
as_str options = bytes "OPTIONS"
as_str connect = bytes "CONNECT"
as_str trace = bytes "TRACE"

-- `u8::to_ascii_lowercase`, on one byte.
abbrev pub ascii_lowercase : ℕ → ℕ
ascii_lowercase c = cond (leb b'A' c && leb c b'Z') (c + 32) c

-- `str::eq_ignore_ascii_case`.
abbrev pub eq_ignore_ascii_case : Text → Text → Bool
eq_ignore_ascii_case a b = text_eq (map ascii_lowercase a) (map ascii_lowercase b)
