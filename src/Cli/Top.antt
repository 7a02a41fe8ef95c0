-- ===== src/Cli/Top.antt =====
-- crates/microwaf/src/cli/top.rs: the table of `top` as text. A line has no line feed of its own;
-- the text of a duration, which humantime writes, is the parameter `show_duration`.
use microwaf.Prelude.{
  ℕ, suc, max, Bool, false, not, ◌||◌, ◌&&◌, ◌==◌, Option, none, some, List, [], ◌∷◌, ◌++◌, length,
  get_elem?, ltb, nat_eq, list_eq, if◌then◌else◌,
}
use microwaf.Prelude.Text.{Text, codes}
use microwaf.Prelude.Utf8.{as_bytes}
use microwaf.Time.{Duration}
use microwaf.Ipc.{ClientRef}
use microwaf.Ipc.Wire.{ActionWire, ViolationWire, ClientEntry, TopColumn, ClientsResult}
use microwaf.Cli.Format.{decimal, pad_right, pad_left, pad_center}

-- `violations.iter().find(...)`, and the value or 0
unfoldable pub find_value : List ViolationWire → Text → ℕ
find_value [] id = 0
find_value (v ∷ vs) id = if v.rule_id == id then v.value else find_value vs id

-- `value_for_column`: the violation at the column's index, if it is of the column's rule
unfoldable pub value_for_column : ClientEntry → TopColumn → ℕ → ℕ
value_for_column entry col index = elim (get_elem? entry.violations index) [
  | none ↦ find_value entry.violations col.rule_id
  | some v ↦ if v.rule_id == col.rule_id then v.value else find_value entry.violations col.rule_id
]

-- `window_unit`
unfoldable pub window_unit : Text → Text
window_unit w =
    if w == codes "per-second" || w == codes "per_second" || w == codes "second" || w == codes "1s"
    then codes "/s"
    else if w == codes "per-minute"
        || w == codes "per_minute"
        || w == codes "minute"
        || w == codes "60s"
    then codes "/m"
    else []

-- `format_rate`
unfoldable pub format_rate : ℕ → Text → Text
format_rate value unit = decimal value ++ unit

-- `format_client`, also that of crates/microwaf/src/cli/client.rs
unfoldable pub format_client : ClientRef → Text
format_client c = elim c.ip [ none ↦ c.mac | some ip ↦ c.mac ++ (b'@' ∷ ip) ]

-- `format_action`
unfoldable pub format_action : Option ActionWire → Text
format_action none = codes "-"
format_action (some ActionWire.none) = codes "-"
format_action (some ActionWire.block) = codes "block"
format_action (some (ActionWire.throttle rate)) = codes "thr " ++ (decimal rate ++ codes "%")

-- `str::len`: the bytes of a text
abbrev pub str_len : Text → ℕ
str_len s = length (as_bytes s)

-- the text of a cell
abbrev pub cell : ClientEntry → TopColumn → ℕ → Text
cell entry col index = format_rate (value_for_column entry col index) (window_unit col.window)

-- the loop over the clients for the width of one column
unfoldable pub widest_cell : TopColumn → ℕ → List ClientEntry → ℕ → ℕ
widest_cell col index [] w = w
widest_cell col index (entry ∷ entries) w =
    widest_cell col index entries (max w (str_len (cell entry col index)))

-- `column_widths`, from the column at an index on
unfoldable pub widths_from : ℕ → List TopColumn → List ClientEntry → List ℕ
widths_from index [] clients = []
widths_from index (col ∷ cols) clients =
    max (widest_cell col index clients (str_len col.rule_id)) 3
    ∷ widths_from (suc index) cols clients

abbrev pub column_widths : List TopColumn → List ClientEntry → List ℕ
column_widths = widths_from 0

-- the width of the clients
unfoldable pub widest_client : List ClientEntry → ℕ
widest_client [] = 6
widest_client (e ∷ es) = max (str_len (format_client e.client)) (widest_client es)

abbrev pub action_w : ℕ
action_w = 10

-- the first four columns; each begins two spaces after the one before
abbrev pub four : ℕ → Text → Text → Text → Text → Text
four mark a b c d = mark ∷ (a ++ (codes "  " ++ (b ++ (codes "  " ++ (c ++ (codes "  " ++ d))))))

-- the cells of a row
unfoldable pub cells : ℕ → ClientEntry → List TopColumn → List ℕ → Text
cells index entry [] ws = []
cells index entry (col ∷ cols) [] = []
cells index entry (col ∷ cols) (w ∷ ws) =
    codes "  " ++ (pad_left b' ' w (cell entry col index) ++ cells (suc index) entry cols ws)

-- `format_row`
unfoldable pub format_row : ℕ → ClientEntry → List TopColumn → List ℕ → ℕ → Text
format_row rank entry columns widths client_w =
    four (if entry.hot then b'*' else b' ') (pad_left b' ' 3 (decimal rank))
      (pad_right b' ' client_w (format_client entry.client))
      (pad_right b' ' action_w (format_action entry.action))
      (pad_right b' ' action_w (format_action entry.would_be_action))
    ++ cells 0 entry columns widths

-- the titles of the rules
unfoldable pub titles : List TopColumn → List ℕ → Text
titles [] ws = []
titles (col ∷ cols) [] = []
titles (col ∷ cols) (w ∷ ws) = codes "  " ++ (pad_center b' ' w col.rule_id ++ titles cols ws)

-- the header line
unfoldable pub header : List TopColumn → List ℕ → ℕ → Text
header columns widths client_w =
    four b' ' (pad_left b' ' 3 (codes "#")) (pad_right b' ' client_w (codes "CLIENT"))
      (pad_right b' ' action_w (codes "ACTION")) (pad_right b' ' action_w (codes "WOULD"))
    ++ titles columns widths

unfoldable pub bars : ℕ → List ℕ → Text
bars fill [] = []
bars fill (w ∷ ws) = codes "  " ++ (pad_right fill w [] ++ bars fill ws)

-- a line across the table, of `-` or of `·`
unfoldable pub separator : ℕ → List ℕ → ℕ → Text
separator fill widths client_w =
    four b' ' (pad_right fill 3 []) (pad_right fill client_w []) (pad_right fill action_w [])
      (pad_right fill action_w [])
    ++ bars fill widths

abbrev pub middle_dot : ℕ
middle_dot = 183

-- the loop over the clients: a dotted line stands before the first one that is not hot, unless it
-- is the first of all
unfoldable pub rows : ℕ → Bool → List ClientEntry → List TopColumn → List ℕ → ℕ → List Text
rows i saw_rest [] columns widths client_w = []
rows i saw_rest (entry ∷ entries) columns widths client_w =
    let rest = rows (suc i) (saw_rest || not entry.hot) entries columns widths client_w in
    let row = format_row (suc i) entry columns widths client_w in
    if (not entry.hot && not saw_rest) && ltb 0 i
    then separator middle_dot widths client_w ∷ row ∷ rest
    else row ∷ rest

-- the rows, or a line that says that there are none
abbrev pub or_empty : List ClientEntry → List Text → List Text
or_empty [] lines = codes " (no known clients)" ∷ []
or_empty (e ∷ es) lines = lines

abbrev pub body : ClientsResult → List ℕ → ℕ → List Text
body result widths client_w =
    or_empty result.clients (rows 0 false result.clients result.columns widths client_w)

abbrev hot_count : List ClientEntry → ℕ
hot_count [] = 0
hot_count (e ∷ es) = if e.hot then suc (hot_count es) else hot_count es

-- the first line
unfoldable pub title_line : (Duration → Text) → ClientsResult → ℕ → Duration → Bool → Text
title_line show_duration result limit interval live =
    let hot = decimal (hot_count result.clients) in
    if live
    then codes "microwaf top  -n "
      ++ (decimal limit
          ++ (codes "  hot="
              ++ (hot
                  ++ (codes "  interval=" ++ (show_duration interval ++ codes "  q/Ctrl+C quit")))))
    else codes "microwaf top  hot=" ++ hot

-- the lines of the table
unfoldable pub table_lines : ClientsResult → List Text
table_lines result =
    let client_w = widest_client result.clients in
    let widths = column_widths result.columns result.clients in
    header result.columns widths client_w
    ∷ separator b'-' widths client_w
    ∷ body result widths client_w

abbrev pub unlines : List Text → Text
unlines [] = []
unlines (l ∷ ls) = l ++ (10 ∷ unlines ls)

-- `render_frame`
unfoldable pub render_frame : (Duration → Text) → ClientsResult → ℕ → Duration → Bool → Text
render_frame show_duration result limit interval live =
    unlines (title_line show_duration result limit interval live ∷ table_lines result)
