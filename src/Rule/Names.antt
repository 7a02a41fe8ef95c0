-- ===== src/Rule/Names.antt =====
-- The wire strings of protocols, metrics and windows are read back, in any case.
use microwaf.Prelude.{◌≡◌}
use microwaf.Prelude.Text.{Text, to_ascii_lowercase}
use microwaf.Prelude.Result.{ok}
use microwaf.Rule.Terms.{
  Protocol, http, web_socket, z21, withrottle, udp, tcp, Metric, requests, bytes, connections,
  Window, per_second, per_minute, protocol_as_str, protocol_from_str, metric_as_str,
  metric_from_str, window_as_str, window_from_str,
}

protocol_read :
    (p : Protocol) (s : Text)
    → to_ascii_lowercase s ≡ protocol_as_str p
    → protocol_from_str s ≡ ok p
unfolding protocol_as_str protocol_from_str
protocol_read http s h = rw h
protocol_read web_socket s h = rw h
protocol_read z21 s h = rw h
protocol_read withrottle s h = rw h
protocol_read udp s h = rw h
protocol_read tcp s h = rw h

metric_read :
    (m : Metric) (s : Text) → to_ascii_lowercase s ≡ metric_as_str m → metric_from_str s ≡ ok m
unfolding metric_as_str metric_from_str
metric_read requests s h = rw h
metric_read bytes s h = rw h
metric_read connections s h = rw h

window_read :
    (w : Window) (s : Text) → to_ascii_lowercase s ≡ window_as_str w → window_from_str s ≡ ok w
unfolding window_as_str window_from_str
window_read per_second s h = rw h
window_read per_minute s h = rw h

-- A text that is the wire string of a protocol, of a metric or of a window, in upper, lower or
-- mixed case, is parsed to that protocol, metric or window.
pub from_str-as_str :
    ((p : Protocol) (s : Text)
      → to_ascii_lowercase s ≡ protocol_as_str p
      → protocol_from_str s ≡ ok p)
    × ((m : Metric) (s : Text) → to_ascii_lowercase s ≡ metric_as_str m → metric_from_str s ≡ ok m)
    × ((w : Window) (s : Text) → to_ascii_lowercase s ≡ window_as_str w → window_from_str s ≡ ok w)
from_str-as_str = (protocol_read, metric_read, window_read)
