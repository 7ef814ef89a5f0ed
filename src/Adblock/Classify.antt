-- ===== src/Adblock/Classify.antt =====
-- src/adblock/classify.rs: the type of a request, the page that it comes from, and whether it looks like a
-- beacon. `header` is what `HeaderMap::get` and `HeaderValue::to_str` give for a name.
use ad_block.Base.{
  Bool, true, false, ◌&&◌, ◌||◌, List, [], ◌∷◌, Option, none, some, is_empty, if◌then◌else◌,
}
use ad_block.Text.{Text, codes, text_eq, is_char, trim, to_ascii_lowercase}
use ad_block.Text.Pieces.{split, split_once_at}

pub record HttpRequest : Type 0 where
  pub method : Text
  pub header : Text → Option Text

abbrev pub eq_ignore_ascii_case : Text → Text → Bool
eq_ignore_ascii_case s t = text_eq (to_ascii_lowercase s) (to_ascii_lowercase t)

abbrev pub first_piece : List Text → Text
first_piece [] = []
first_piece (t ∷ ts) = t

abbrev pub names_type : Text → Option Text → Bool
names_type want none = false
names_type want (some v) = eq_ignore_ascii_case (trim (first_piece (split (is_char b';') v))) want

unfoldable pub header_is : HttpRequest → Text → Text → Bool
header_is req name want = names_type want (req.header name)

-- The type that a `sec-fetch-dest` header names.
unfoldable pub dest_type : Text → Text
dest_type dest =
    if text_eq dest (codes "document")
    then codes "document"
    else if text_eq dest (codes "iframe") || text_eq dest (codes "frame")
    then codes "subdocument"
    else if text_eq dest (codes "image")
    then codes "image"
    else if text_eq dest (codes "script")
    then codes "script"
    else if text_eq dest (codes "style")
    then codes "stylesheet"
    else if text_eq dest (codes "video") || text_eq dest (codes "audio")
    then codes "media"
    else if text_eq dest (codes "font")
    then codes "font"
    else if text_eq dest (codes "object") || text_eq dest (codes "embed")
    then codes "object"
    else if text_eq dest (codes "empty")
    then codes "fetch"
    else codes "other"

unfoldable pub contains : Text → Text → Bool
contains p s = elim (split_once_at p s) [ none ↦ false | some _ ↦ true ]

abbrev pub text_or : Text → Option Text → Text
text_or d none = d
text_or d (some t) = t

-- The type by the `accept` header and the method.
unfoldable pub accept_type : Text → Text → Text
unfolding contains
accept_type accept method =
    if contains (codes "text/html") accept
    then codes "document"
    else if contains (codes "image/") accept
    then codes "image"
    else if text_eq method (codes "GET") || text_eq method (codes "HEAD")
    then codes "other"
    else codes "fetch"

abbrev pub is_xhr : Option Text → Bool
is_xhr none = false
is_xhr (some v) = eq_ignore_ascii_case v (codes "XMLHttpRequest")

unfoldable pub undeclared_type : HttpRequest → Text
unfolding accept_type
undeclared_type req =
    if is_xhr (req.header (codes "x-requested-with"))
    then codes "fetch"
    else accept_type (text_or [] (req.header (codes "accept"))) req.method

abbrev pub declared_or : Text → Option Text → Text
declared_or d none = d
declared_or d (some dest) = dest_type dest

unfoldable pub request_type : HttpRequest → Text
unfolding header_is dest_type undeclared_type
request_type req =
    if header_is req (codes "upgrade") (codes "websocket")
    then codes "websocket"
    else if header_is req (codes "content-type") (codes "text/ping")
    then codes "ping"
    else declared_or (undeclared_type req) (req.header (codes "sec-fetch-dest"))

unfoldable pub source_url : HttpRequest → Text → Text → Text
source_url req url req_type =
    if is_empty (text_or [] (req.header (codes "referer")))
    then (if text_eq req_type (codes "document") then url else [])
    else text_or [] (req.header (codes "referer"))

unfoldable pub is_beacon_shaped : HttpRequest → Bool
unfolding header_is
is_beacon_shaped req =
    text_eq req.method (codes "POST")
    && (header_is req (codes "sec-fetch-mode") (codes "no-cors")
        && header_is req (codes "sec-fetch-dest") (codes "empty"))
