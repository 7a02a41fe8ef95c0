-- ===== src/Detect/Http/Request.antt =====
-- What holds of every request that is detected.
use microwaf.Prelude.{
  ◌≤◌, ◌≢◌, ℕ, ◌≡◌, refl, Bool, true, false, ◌||◌, Option, none, some, List, [], ◌∷◌, ◌++◌, length,
  get_or, arith, Option-cases, inl, inr,
}
use microwaf.Prelude.Text.{Text, split_whitespace, split_once}
use microwaf.Prelude.Utf8.{from_utf8}
use microwaf.Detect.Http.{
  HttpRequestLine, all_alphabetic, header_lines, is_upgrade, header_of, read_headers, read_request,
  first_line, read_text, detect_http_request,
}

-- one of the headers asks for the WebSocket protocol
abbrev pub any_upgrade : List (Text × Text) → Bool
any_upgrade [] = false
any_upgrade (h ∷ hs) = is_upgrade h || any_upgrade hs

any_upgrade-append :
    (hs : List (Text × Text)) (h : Text × Text)
    → any_upgrade (hs ++ h ∷ []) ≡ (is_upgrade h || any_upgrade hs)
any_upgrade-append [] h = refl
any_upgrade-append (g ∷ hs) h = ground (arith, any_upgrade-append hs h)

read_headers_lem :
    (ls : List Text) (upgrade : Bool) (hs : List (Text × Text))
    → upgrade ≡ any_upgrade hs
    → (read_headers ls upgrade hs).0 ≡ any_upgrade (read_headers ls upgrade hs).1
unfolding read_headers
read_headers_lem [] upgrade hs e = e
read_headers_lem ([] ∷ ls) upgrade hs e = e
read_headers_lem ((c ∷ l) ∷ ls) upgrade hs e = elim (Option-cases (split_once b':' (c ∷ l))) [
  | inl p ↦ rw (p, read_headers) (read_headers_lem ls upgrade hs e)
  | inr (h, p) ↦
      rw (p, read_headers)
        (read_headers_lem ls (is_upgrade (header_of h) || upgrade) (hs ++ header_of h ∷ [])
          (rw (e, any_upgrade-append)))
]

-- what is promised of a request
pub record IsRequest (r : HttpRequestLine) : Type 0 where
  pub letters : all_alphabetic r.method ≡ true
  pub flag : r.upgrade_ws ≡ any_upgrade r.headers

read_request_lem :
    (words : List Text) (rest : Text) (r : HttpRequestLine)
    → read_request words rest ≡ some r
    → IsRequest r
unfolding read_request
read_request_lem (m ∷ t ∷ v ∷ ws) rest r h =
    let flag = read_headers_lem (header_lines rest) false [] refl in ground arith
read_request_lem _ rest r h = ground arith

read_text_lem : (o : Option Text) (r : HttpRequestLine) → read_text o ≡ some r → IsRequest r
unfolding read_text
read_text_lem none r h = ground arith
read_text_lem (some text) r h = elim (Option-cases (first_line text)) [
  | inl e ↦ absurd (ground arith)
  | inr ((head, rest), e) ↦ read_request_lem (split_whitespace head) rest r (rw (e, read_text) at h)
]

-- A payload in which a request is detected is not empty and is no TLS handshake; its method is made
-- of ASCII letters, and the upgrade flag is set exactly if one of the returned headers is an
-- `upgrade` header for `websocket`.
pub detect_http_request_sound :
    (payload : List ℕ) (r : HttpRequestLine)
    → detect_http_request payload ≡ some r
    → (payload ≢ [])
      × ¬ ((2 ≤ length payload) × (get_or payload 0 0 ≡ 0x16) × (get_or payload 1 0 ≡ 0x03))
      × (all_alphabetic r.method ≡ true)
      × (r.upgrade_ws ≡ any_upgrade r.headers)
unfolding detect_http_request
detect_http_request_sound [] r h = ground arith
detect_http_request_sound (b ∷ bs) r h =
    let req = read_text_lem (from_utf8 (b ∷ bs)) r (ground arith) in
    (ground arith, ground arith, req.letters, req.flag)
