-- ===== src/Rule/Terms.antt =====
-- crates/mw-core/src/rule.rs: the vocabulary of rules (protocols, metrics, windows, actions), and
-- crates/mw-core/src/error.rs: `ConfigError`.
use microwaf.Prelude.{
  ℕ, ◌≡◌, ◌↔◌, Bool, true, false, ◌||◌, ◌++◌, Eq, ◌==◌, nat_eq, list_eq, if◌then◌else◌, arith,
}
use microwaf.Prelude.Text.{Text, codes, to_ascii_lowercase}
use microwaf.Prelude.Result.{Result, ok, err}

pub data ConfigError : Type 0 where
  duplicate_rule_id : Text → ConfigError
  too_many_rules : ℕ → ℕ → ConfigError
  ports_required : Text → Text → ConfigError
  invalid_metric : Text → Text → Text → ConfigError
  invalid_drop_rate : Text → ℕ → ConfigError
  cel_compile : Text → Text → ConfigError
  parse : Text → ConfigError
  invalid_value : Text → ConfigError

-- `ConfigError::InvalidValue(format!("<what> `{other}`"))`
abbrev pub invalid : Text → Text → ConfigError
invalid what other = invalid_value (what ++ (codes " `" ++ (other ++ codes "`")))

pub data Protocol : Type 0 where
  http web_socket z21 withrottle udp tcp : Protocol

pub data Metric : Type 0 where
  requests bytes connections : Metric

pub data Window : Type 0 where
  per_second per_minute : Window

-- `Throttle { drop_rate }` with a `u8`, or `Block`
pub data Action : Type 0 where
  throttle : ℕ → Action
  block : Action

-- `Protocol::is_parsed`
unfoldable pub is_parsed : Protocol → Bool
is_parsed udp = false
is_parsed tcp = false
is_parsed _ = true

-- `Protocol::as_str`
unfoldable pub protocol_as_str : Protocol → Text
protocol_as_str http = codes "http"
protocol_as_str web_socket = codes "websocket"
protocol_as_str z21 = codes "z21"
protocol_as_str withrottle = codes "withrottle"
protocol_as_str udp = codes "udp"
protocol_as_str tcp = codes "tcp"

match_protocol : Text → Result ConfigError Protocol
match_protocol s =
    if s == codes "http"
    then ok http
    else if s == codes "websocket" || s == codes "ws"
    then ok web_socket
    else if s == codes "z21"
    then ok z21
    else if s == codes "withrottle" || s == codes "wt"
    then ok withrottle
    else if s == codes "udp"
    then ok udp
    else if s == codes "tcp"
    then ok tcp
    else err (invalid (codes "protocol") s)

-- `Protocol::from_str`
unfoldable pub protocol_from_str : Text → Result ConfigError Protocol
unfolding match_protocol
protocol_from_str s = match_protocol (to_ascii_lowercase s)

-- `Metric::as_str`
unfoldable pub metric_as_str : Metric → Text
metric_as_str requests = codes "requests"
metric_as_str bytes = codes "bytes"
metric_as_str connections = codes "connections"

-- `Metric::valid_for`
unfoldable pub valid_for : Metric → Protocol → Bool
valid_for requests udp = false
valid_for requests tcp = false
valid_for requests _ = true
valid_for bytes _ = true
valid_for connections udp = true
valid_for connections tcp = true
valid_for connections _ = false

match_metric : Text → Result ConfigError Metric
match_metric s =
    if s == codes "requests"
    then ok requests
    else if s == codes "bytes"
    then ok bytes
    else if s == codes "connections"
    then ok connections
    else err (invalid (codes "metric") s)

-- `Metric::from_str`
unfoldable pub metric_from_str : Text → Result ConfigError Metric
unfolding match_metric
metric_from_str s = match_metric (to_ascii_lowercase s)

-- `Window::secs`
unfoldable pub secs : Window → ℕ
secs per_second = 1
secs per_minute = 60

-- `Window::as_str`
unfoldable pub window_as_str : Window → Text
window_as_str per_second = codes "per-second"
window_as_str per_minute = codes "per-minute"

match_window : Text → Result ConfigError Window
match_window s =
    if s == codes "per-second" || s == codes "per_second" || s == codes "second" || s == codes "1s"
    then ok per_second
    else if s == codes "per-minute"
        || s == codes "per_minute"
        || s == codes "minute"
        || s == codes "60s"
    then ok per_minute
    else err (invalid (codes "window") s)

-- `Window::from_str`
unfoldable pub window_from_str : Text → Result ConfigError Window
unfolding match_window
window_from_str s = match_window (to_ascii_lowercase s)

-- The derived equalities, by the index of the variant.
abbrev protocol_index : Protocol → ℕ
protocol_index http = 0
protocol_index web_socket = 1
protocol_index z21 = 2
protocol_index withrottle = 3
protocol_index udp = 4
protocol_index tcp = 5

abbrev pub protocol_beq : Protocol → Protocol → Bool
protocol_beq p q = protocol_index p == protocol_index q

pub protocol_beq_iff : (p q : Protocol) → (protocol_beq p q ≡ true) ↔ (p ≡ q)
protocol_beq_iff p q = ground arith

abbrev metric_index : Metric → ℕ
metric_index requests = 0
metric_index bytes = 1
metric_index connections = 2

abbrev pub metric_beq : Metric → Metric → Bool
metric_beq m n = metric_index m == metric_index n

pub metric_beq_iff : (m n : Metric) → (metric_beq m n ≡ true) ↔ (m ≡ n)
metric_beq_iff m n = ground arith

instance abbrev pub protocol_eq : Eq Protocol
protocol_eq = record { beq = protocol_beq; beq_iff = protocol_beq_iff }

instance abbrev pub metric_eq : Eq Metric
metric_eq = record { beq = metric_beq; beq_iff = metric_beq_iff }
