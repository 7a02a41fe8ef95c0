-- ===== src/Detect/Http.antt =====
-- crates/mw-sniffer/src/http.rs: the request line and the headers of an HTTP request.
pub mod Request
use microwaf.Prelude.{
  ℕ, Bool, true, false, not, ◌&&◌, ◌||◌, Option, none, some, List, [], ◌∷◌, ◌++◌, length, get_or,
  ltb, nat_beq, ◌==◌, nat_eq, list_eq, if◌then◌else◌,
}
use microwaf.Prelude.Text.{
  Text, codes, to_ascii_lowercase, is_ascii_alphabetic, split, split_once, split_once_crlf,
  split_crlf, split_whitespace, starts_with, trim,
}
use microwaf.Prelude.Utf8.{from_utf8}

pub record HttpRequestLine : Type 0 where
  pub method : Text
  pub path : Text
  pub query : Text
  pub upgrade_ws : Bool
  pub headers : List (Text × Text)

abbrev pub all_alphabetic : Text → Bool
all_alphabetic [] = true
all_alphabetic (c ∷ s) = is_ascii_alphabetic c && all_alphabetic s

-- `s.split('#').next().unwrap_or(s)`
abbrev first_piece : Text → List Text → Text
first_piece s [] = s
first_piece s (p ∷ ps) = p

abbrev pub before_hash : Text → Text
before_hash s = first_piece s (split (λ c. nat_beq c b'#') s)

-- the path and the query of the request target
abbrev pub split_target : Text → Text × Text
split_target target = elim (split_once b'?' target) [
  | none ↦ (before_hash target, [])
  | some (p, q) ↦ (p, before_hash q)
]

abbrev split_lines : List Text → List Text
split_lines [] = []
split_lines (l ∷ ls) = split (λ c. nat_beq c 10) l ++ split_lines ls

-- `rest.split("\r\n").flat_map(|l| l.split('\n'))`
abbrev pub header_lines : Text → List Text
header_lines rest = split_lines (split_crlf rest)

-- `name == "upgrade" && value.eq_ignore_ascii_case("websocket")`
abbrev pub is_upgrade : Text × Text → Bool
is_upgrade (name, value) = name == codes "upgrade" && to_ascii_lowercase value == codes "websocket"

abbrev pub header_of : Text × Text → Text × Text
header_of (name, value) = (to_ascii_lowercase (trim name), trim value)

-- the loop over the header lines: the flag, and the headers in order
unfoldable pub read_headers : List Text → Bool → List (Text × Text) → Bool × List (Text × Text)
read_headers [] upgrade headers = (upgrade, headers)
read_headers ([] ∷ ls) upgrade headers = (upgrade, headers)
read_headers ((c ∷ l) ∷ ls) upgrade headers = elim (split_once b':' (c ∷ l)) [
  | none ↦ read_headers ls upgrade headers
  | some h ↦ read_headers ls (is_upgrade (header_of h) || upgrade) (headers ++ header_of h ∷ [])
]

-- what is done with the first line's words and the rest of the text
unfoldable pub read_request : List Text → Text → Option HttpRequestLine
read_request (method ∷ target ∷ version ∷ _) rest =
    if not (starts_with (codes "HTTP/") version)
    then none
    else if not (all_alphabetic method)
    then none
    else let (upgrade, headers) = read_headers (header_lines rest) false [] in
      some (record {
        method = method;
        path = (split_target target).0;
        query = (split_target target).1;
        upgrade_ws = upgrade;
        headers = headers;
      })
read_request _ rest = none

-- `text.split_once("\r\n").or_else(|| text.split_once('\n'))`
abbrev pub first_line : Text → Option (Text × Text)
first_line text = elim (split_once_crlf text) [ none ↦ split_once 10 text | some p ↦ some p ]

read_text : Option Text → Option HttpRequestLine
read_text none = none
read_text (some text) = elim (first_line text) [
  | none ↦ none
  | some (head, rest) ↦ read_request (split_whitespace head) rest
]

-- `detect_http_request`
unfoldable pub detect_http_request : List ℕ → Option HttpRequestLine
unfolding read_text
detect_http_request [] = none
detect_http_request (b ∷ bs) =
    if not (ltb (length (b ∷ bs)) 2) && nat_beq b 0x16 && nat_beq (get_or (b ∷ bs) 1 0) 0x03
    then none
    else if not (is_ascii_alphabetic b)
    then none
    else read_text (from_utf8 (b ∷ bs))
