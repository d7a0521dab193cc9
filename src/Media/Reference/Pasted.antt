-- ===== src/Media/Reference/Pasted.antt =====
-- What a pasted text is read as.
use hotchkiss_io.Base.{
  All, Bool-cases, Option, [], arith, false, if◌then◌else◌, inl, inr, none, refl, some, subst, true,
  ◌∷◌, ◌≡◌,
}
use hotchkiss_io.Text.{Text, after_last, is_empty, take_while, trim}
use hotchkiss_io.Media.Reference.{
  MediaReference, as_key, as_ref, file_marker, is_token_char, media_marker, parse_cover_reference,
  parse_ref, parse_token, parse_url_key, ref_token, trim_token, url_key_token,
}
use hotchkiss_io.Media.{is_sha256_hex}
use hotchkiss_io.Text.Laws.{take_while-All}

abbrev IsTokenText : Text → Type 0
IsTokenText t = (is_empty t ≡ false) × All (λ c. is_token_char c ≡ true) t

-- What can be looked up: a token, and for a file a key in 64 hexadecimal digits.
abbrev pub IsReference : Option MediaReference → Type 0
IsReference none = Unit
IsReference (some (ref_token t)) = IsTokenText t
IsReference (some (url_key_token t)) = IsTokenText t × (is_sha256_hex t ≡ true)

non_empty-IsTokenText :
    (w t : Text)
    → All (λ c. is_token_char c ≡ true) w
    → (if is_empty w then none else some w) ≡ some t
    → IsTokenText t
non_empty-IsTokenText [] t h e = ground arith
non_empty-IsTokenText (c ∷ w) t h e =
    let whole : c ∷ w ≡ t = cc in subst IsTokenText whole (refl, h)

trim_token-IsTokenText : (s t : Text) → trim_token s ≡ some t → IsTokenText t
unfolding trim_token
trim_token-IsTokenText s t =
    non_empty-IsTokenText (take_while is_token_char s) t (take_while-All is_token_char s)

as_ref-IsReference :
    (o : Option Text) → ((t : Text) → o ≡ some t → IsTokenText t) → IsReference (as_ref o)
as_ref-IsReference none h = tt
as_ref-IsReference (some t) h = h t refl

as_key-IsReference :
    (o : Option Text)
    → ((t : Text) → o ≡ some t → IsTokenText t)
    → IsReference (as_key (elim o [ none ↦ none | some t ↦ parse_url_key t ]))
unfolding parse_url_key
as_key-IsReference none h = tt
as_key-IsReference (some t) h = elim (Bool-cases (is_sha256_hex t)) [
  | inl y ↦ rw y (h t refl, y)
  | inr m ↦ rw m tt
]

-- What the marker of a page of media leads to.
below_media-IsReference :
    (whole : Text) (o : Option Text)
    → IsReference (elim o [ some rest ↦ as_ref (parse_ref rest) | none ↦ as_ref (parse_ref whole) ])
unfolding parse_ref
below_media-IsReference whole none =
    as_ref-IsReference (trim_token whole) (trim_token-IsTokenText whole)
below_media-IsReference whole (some rest) =
    as_ref-IsReference (trim_token rest) (trim_token-IsTokenText rest)

below_file-IsReference :
    (whole : Text) (o : Option Text)
    → IsReference (elim o [
      | some rest ↦ as_key (parse_token rest)
      | none ↦ elim (after_last media_marker whole) [
        | some rest ↦ as_ref (parse_ref rest)
        | none ↦ as_ref (parse_ref whole)
      ]
    ])
unfolding parse_token
below_file-IsReference whole none = below_media-IsReference whole (after_last media_marker whole)
below_file-IsReference whole (some rest) =
    as_key-IsReference (trim_token rest) (trim_token-IsTokenText rest)

-- Whatever is pasted, what is looked up is a token, and for a file a key in 64 hexadecimal digits.
pub parse_cover_reference-IsReference : (raw : Text) → IsReference (parse_cover_reference raw)
unfolding parse_cover_reference
parse_cover_reference-IsReference raw =
    below_file-IsReference (trim raw) (after_last file_marker (trim raw))
