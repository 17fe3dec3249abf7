-- ===== src/Cose/Uri.antt =====
-- The text syntaxes of lib/cpb/cose_refs.py: media types, RFC 3986 URIs and StringOrURI.
use scitt_payload_binding.Common.{
  ℕ, suc, Bool, true, false, ◌&&◌, ◌||◌, not, Text, [], ◌∷◌, Option, none, some, leb, ltb, ◌==◌,
  if◌then◌else◌, length, take, drop, all, is_empty, char_in, codes, text_eq,
}
use scitt_payload_binding.Python.{Host, is_ascii_digit}

abbrev pub is_upper : ℕ → Bool
is_upper c = leb b'A' c && leb c b'Z'

abbrev pub is_lower : ℕ → Bool
is_lower c = leb b'a' c && leb c b'z'

abbrev pub is_alpha : ℕ → Bool
is_alpha c = is_upper c || is_lower c

-- `isascii() and isalnum()`
abbrev pub is_alnum : ℕ → Bool
is_alnum c = is_alpha c || is_ascii_digit c

-- s.partition(sep): the two sides, or none when `sep` does not occur
unfoldable pub partition : ℕ → Text → Option (Text × Text)
partition sep [] = none
partition sep (c ∷ s) = elim (c == sep) [
  | true ↦ some ([], s)
  | false ↦ elim (partition sep s) [ none ↦ none | some (front, back) ↦ some (c ∷ front, back) ]
]

-- s.rsplit(sep, 1), when `sep` occurs
unfoldable pub rsplit : ℕ → Text → Option (Text × Text)
rsplit sep [] = none
rsplit sep (c ∷ s) = elim (rsplit sep s) [
  | some (front, back) ↦ some (c ∷ front, back)
  | none ↦ if c == sep then some ([], s) else none
]

unfoldable pub occurrences : ℕ → Text → ℕ
occurrences sep [] = 0
occurrences sep (c ∷ s) = if c == sep then suc (occurrences sep s) else occurrences sep s

-- _MEDIA_TYPE_NAME_CHARS
abbrev pub is_media_char : ℕ → Bool
is_media_char c = is_alnum c || char_in c (codes "!#$&-^_.+")

abbrev pub first_is : (ℕ → Bool) → Text → Bool
first_is p [] = false
first_is p (c ∷ s) = p c

-- _is_media_type_name
unfoldable pub is_media_type_name : Text → Bool
is_media_type_name t =
    leb 1 (length t) && leb (length t) 127 && first_is is_alnum t && all is_media_char t

-- a text content type: type-name/subtype-name
unfoldable pub is_media_type : Text → Bool
is_media_type t = elim (partition b'/' t) [
  | none ↦ false
  | some (type_name, subtype_name) ↦
      not (char_in b'/' subtype_name)
      && is_media_type_name type_name
      && is_media_type_name subtype_name
]

abbrev pub is_unreserved : ℕ → Bool
is_unreserved c = is_alnum c || char_in c (codes "-._~")

abbrev pub is_sub_delim : ℕ → Bool
is_sub_delim c = char_in c (codes "!$&'()*+,;=")

abbrev pub is_hexdig : ℕ → Bool
is_hexdig c = is_ascii_digit c || leb b'A' c && leb c b'F' || leb b'a' c && leb c b'f'

abbrev pub is_pchar : ℕ → Bool
is_pchar c = is_unreserved c || is_sub_delim c || char_in c (codes ":@")

-- _valid_uri_component
unfoldable pub valid_component : (ℕ → Bool) → Text → Bool
valid_component allowed [] = true
valid_component allowed (c ∷ []) = not (c == b'%') && allowed c
valid_component allowed (c ∷ d ∷ []) =
    not (c == b'%') && allowed c && (not (d == b'%') && allowed d)
valid_component allowed (c ∷ d ∷ e ∷ s) =
    let escape = is_hexdig d && is_hexdig e && valid_component allowed s in
    let plain = allowed c && valid_component allowed (d ∷ e ∷ s) in
    if c == b'%' then escape else plain

abbrev pub is_userinfo_char : ℕ → Bool
is_userinfo_char c = is_unreserved c || is_sub_delim c || c == b':'

-- what may stand behind a bracketed host: nothing, or a colon and a port
abbrev pub valid_port_suffix : Text → Bool
valid_port_suffix [] = true
valid_port_suffix (c ∷ s) = c == b':' && all is_ascii_digit s

-- the IPvFuture form behind its `v`
unfoldable pub valid_future : Text → Bool
valid_future t = elim (partition b'.' t) [
  | none ↦ false
  | some (version, address) ↦
      not (is_empty version)
      && all is_hexdig version
      && not (is_empty address)
      && valid_component is_userinfo_char address
]

abbrev pub is_v : ℕ → Bool
is_v c = c == b'v' || c == b'V'

unfoldable pub valid_literal : Host → Text → Bool
valid_literal host t = if first_is is_v t then valid_future (drop 1 t) else host.is_ipv6 t

-- the text behind `[`
unfoldable pub valid_bracketed : Host → Text → Bool
valid_bracketed host t = elim (partition b']' t) [
  | none ↦ false
  | some (literal, remainder) ↦ valid_port_suffix remainder && valid_literal host literal
]

abbrev pub is_host_char : ℕ → Bool
is_host_char c = is_unreserved c || is_sub_delim c

unfoldable pub valid_host : Text → Bool
valid_host t = elim (rsplit b':' t) [
  | none ↦ valid_component is_host_char t
  | some (host, port) ↦
      not (char_in b':' host) && all is_ascii_digit port && valid_component is_host_char host
]

unfoldable pub valid_host_and_port : Host → Text → Bool
valid_host_and_port host t =
    if first_is (λ c. c == b'[') t then valid_bracketed host (drop 1 t) else valid_host t

-- _valid_uri_authority
unfoldable pub valid_authority : Host → Text → Bool
valid_authority host t = elim (rsplit b'@' t) [
  | none ↦ valid_host_and_port host t
  | some (userinfo, host_and_port) ↦
      occurrences b'@' t == 1
      && valid_component is_userinfo_char userinfo
      && valid_host_and_port host host_and_port
]

-- the longest part without one of `/?#`, and what follows: urllib's `_splitnetloc`
unfoldable pub split_netloc : Text → Text × Text
split_netloc [] = ([], [])
split_netloc (c ∷ s) =
    let (front, back) = split_netloc s in
    if char_in c (codes "/?#") then ([], c ∷ s) else (c ∷ front, back)

-- s.split(sep, 1), with "" for a missing second part
unfoldable pub split_once : ℕ → Text → Text × Text
split_once sep t = elim (partition sep t) [ none ↦ (t, []) | some (front, back) ↦ (front, back) ]

pub record SplitUrl : Type 0 where
  pub netloc : Text
  pub path : Text
  pub query : Text
  pub fragment : Text

-- `urlsplit` raises no ValueError about the brackets of a netloc
abbrev pub brackets_ok : Host → Text → Bool
brackets_ok host netloc =
    if char_in b'[' netloc
    then char_in b']' netloc && host.bracketed_netloc netloc
    else not (char_in b']' netloc)

-- the path, query and fragment behind the netloc
unfoldable pub split_path : Text → Text → SplitUrl
split_path netloc rest =
    let (url, fragment) = split_once b'#' rest in
    let (path, query) = split_once b'?' url in
    record { netloc = netloc; path = path; query = query; fragment = fragment }

-- urlsplit, of what follows a valid scheme in a text of visible ASCII characters
unfoldable pub urlsplit : Host → Text → Option SplitUrl
urlsplit host rest =
    if text_eq (take 2 rest) (codes "//")
    then (let (netloc, url) = split_netloc (drop 2 rest) in
        if brackets_ok host netloc then some (split_path netloc url) else none)
    else some (split_path [] rest)

-- a visible ASCII character
abbrev pub is_visible : ℕ → Bool
is_visible c = ltb 0x20 c && ltb c 0x7f

unfoldable pub valid_scheme : Text → Bool
valid_scheme [] = false
valid_scheme (c ∷ s) = is_alpha c && all (λ d. is_alnum d || char_in d (codes "+-.")) s

unfoldable pub valid_split : Host → Option SplitUrl → Bool
valid_split host none = false
valid_split host (some u) =
    valid_component (λ c. is_pchar c || c == b'/') u.path
    && valid_component (λ c. is_pchar c || char_in c (codes "/?")) u.query
    && valid_component (λ c. is_pchar c || char_in c (codes "/?")) u.fragment
    && valid_authority host u.netloc

-- _is_rfc3986_uri
unfoldable pub is_rfc3986_uri : Host → Text → Bool
is_rfc3986_uri host t = all is_visible t && elim (partition b':' t) [
  | none ↦ false
  | some (scheme, rest) ↦ valid_scheme scheme && valid_split host (urlsplit host rest)
]

-- _is_rfc8392_string_or_uri
unfoldable pub is_string_or_uri : Host → Text → Bool
is_string_or_uri host t = not (char_in b':' t) || is_rfc3986_uri host t
