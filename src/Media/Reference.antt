-- ===== src/Media/Reference.antt =====
-- src/web/util/media_ref.rs: the media token in what is pasted as a cover. A token is the text itself;
-- `parse_ref`, `parse_url_key` and `parse_token` are `MediaRef::parse`, `UrlKey::parse` and
-- `UrlKey::parse_token`.
pub mod Pasted
use hotchkiss_io.Base.{Bool, Option, if◌then◌else◌, none, some, ℕ, ◌==◌, ◌||◌}
use hotchkiss_io.Text.{Text, after_last, codes, is_ascii_alphanumeric, is_empty, take_while, trim}
use hotchkiss_io.Media.{is_sha256_hex}

pub data MediaReference : Type 0 where
  ref_token url_key_token : Text → MediaReference

abbrev media_marker : Text
media_marker = codes "/media/"

abbrev file_marker : Text
file_marker = codes "/media/file/"

unfoldable pub is_token_char : ℕ → Bool
unfolding is_ascii_alphanumeric
is_token_char c = is_ascii_alphanumeric c || (c == b'-' || c == b'_')

unfoldable pub trim_token : Text → Option Text
unfolding take_while is_token_char
trim_token s = let token = take_while is_token_char s in if is_empty token then none else some token

unfoldable pub parse_ref : Text → Option Text
unfolding trim_token
parse_ref s = trim_token s

unfoldable pub parse_url_key : Text → Option Text
unfolding is_sha256_hex
parse_url_key s = if is_sha256_hex s then some s else none

unfoldable pub parse_token : Text → Option Text
unfolding trim_token parse_url_key
parse_token s = elim (trim_token s) [ none ↦ none | some t ↦ parse_url_key t ]

abbrev as_ref : Option Text → Option MediaReference
as_ref none = none
as_ref (some t) = some (ref_token t)

abbrev as_key : Option Text → Option MediaReference
as_key none = none
as_key (some t) = some (url_key_token t)

unfoldable pub parse_cover_reference : Text → Option MediaReference
unfolding trim after_last parse_ref parse_token
parse_cover_reference raw = elim (after_last file_marker (trim raw)) [
  | some rest ↦ as_key (parse_token rest)
  | none ↦ elim (after_last media_marker (trim raw)) [
    | some rest ↦ as_ref (parse_ref rest)
    | none ↦ as_ref (parse_ref (trim raw))
  ]
]
