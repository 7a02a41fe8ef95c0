-- ===== src/Tests/Detectors.antt =====
-- Examples: the detectors of application protocols.
use microwaf.Prelude.{
  ℕ, ◌≡◌, ◌≢◌, ◌≤◌, refl, true, some, List, [], ◌∷◌, ◌++◌, inl, inr, arith, All, length, get_or,
}
use microwaf.Prelude.Text.{codes}
use microwaf.Detect.Ws.{WsFrameHeader, detect_ws_frame}
use microwaf.Detect.Ws.Layout.{encode, detect_ws_frame-encode}
use microwaf.Detect.Z21.{Z21Record, detect_z21_records}
use microwaf.Detect.Z21.Records.{IsRecord, encode_all, detect_z21_records-encode_all}
use microwaf.Prelude.Utf8.{from_utf8}
use microwaf.Detect.Http.{
  read_request, read_headers, HttpRequestLine, detect_http_request, all_alphabetic,
}
use microwaf.Detect.Http.Request.{detect_http_request_sound, any_upgrade}
use microwaf.Detect.Withrottle.{detect_withrottle_lines}
use microwaf.Detect.Withrottle.Lines.{IsCommand, detect_withrottle_lines_sound}

abbrev text_frame : WsFrameHeader
text_frame = record { fin = true; opcode = 1; payload_len = 300; masked = true }

detect_ws_frame-encode_example :
    detect_ws_frame (encode text_frame ++ (1 ∷ 2 ∷ 3 ∷ 4 ∷ [])) ≡ some text_frame
detect_ws_frame-encode_example =
    detect_ws_frame-encode text_frame (1 ∷ 2 ∷ 3 ∷ 4 ∷ []) (inl (ground arith)) (ground arith)
      (inr (ground arith))

-- LAN_X_GET_VERSION, with its X-BUS header
abbrev get_version : Z21Record
get_version = record { header = 0x40; xheader = 0x21; data_len = 7; payload = 0x21 ∷ 0x21 ∷ 0 ∷ [] }

get_version-IsRecord : IsRecord get_version
get_version-IsRecord = record {
  whole = refl;
  len_fits = ground arith;
  header_fits = ground arith;
  sub_header = refl;
}

detect_z21_records-encode_all_example :
    detect_z21_records (encode_all (get_version ∷ get_version ∷ []) ++ (3 ∷ 0 ∷ []))
    ≡ get_version ∷ get_version ∷ []
detect_z21_records-encode_all_example =
    detect_z21_records-encode_all (get_version ∷ get_version ∷ []) (3 ∷ 0 ∷ [])
      (get_version-IsRecord, (get_version-IsRecord, tt)) (inl (ground arith))

abbrev upgrade_payload : List ℕ
upgrade_payload = codes "GET /ws HTTP/1.1\nUpgrade: websocket\n"

abbrev upgrade_request : HttpRequestLine
upgrade_request = record {
  method = codes "GET";
  path = codes "/ws";
  query = [];
  upgrade_ws = true;
  headers = (codes "upgrade", codes "websocket") ∷ [];
}

upgrade_detected : detect_http_request upgrade_payload ≡ some upgrade_request
unfolding detect_http_request from_utf8 read_request read_headers
upgrade_detected = refl

detect_http_request_sound_example :
    (upgrade_payload ≢ [])
    × ¬ (
        (2 ≤ length upgrade_payload)
        × (get_or upgrade_payload 0 0 ≡ 0x16)
        × (get_or upgrade_payload 1 0 ≡ 0x03))
    × (all_alphabetic (codes "GET") ≡ true)
    × (true ≡ any_upgrade upgrade_request.headers)
detect_http_request_sound_example =
    detect_http_request_sound upgrade_payload upgrade_request upgrade_detected

detect_withrottle_lines_sound_example :
    All IsCommand (detect_withrottle_lines (codes "M0A*<;>V30\nPTA2LT12\n"))
detect_withrottle_lines_sound_example =
    detect_withrottle_lines_sound (codes "M0A*<;>V30\nPTA2LT12\n")
