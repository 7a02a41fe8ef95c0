-- ===== src/Cli/Widths.antt =====
-- The lengths of the pieces of a line of `top`.
use microwaf.Prelude.{
  ℕ, suc, ◌+◌, ◌≤◌, ◌≡◌, ap, refl, max, List, [], ◌∷◌, ◌++◌, length, Among, length-append, arith,
  inl, inr,
}
use microwaf.Prelude.Text.{Text, codes}
use microwaf.Prelude.Utf8.{as_bytes, char_bytes}
use microwaf.Ipc.Wire.{ClientEntry, TopColumn}
use microwaf.Cli.Format.{
  pad_right, pad_left, pad_center, length-pad_right, length-pad_left, length-pad_center,
}
use microwaf.Cli.Top.{
  str_len, cell, widest_cell, widths_from, widest_client, action_w, four, cells, titles, bars,
  format_client,
}

length-char_bytes : (c : ℕ) → 1 ≤ length (char_bytes c)
length-char_bytes c = ground arith

-- A text has at most as many characters as bytes.
pub length-as_bytes : (s : Text) → length s ≤ str_len s
unfolding as_bytes
length-as_bytes [] = omega arith
length-as_bytes (c ∷ s) =
    omega (arith, length-append (char_bytes c) (as_bytes s), length-char_bytes c, length-as_bytes s)

le-widest_cell :
    (col : TopColumn) (i : ℕ) (es : List ClientEntry) (w : ℕ) → w ≤ widest_cell col i es w
unfolding widest_cell
le-widest_cell col i [] w = omega arith
le-widest_cell col i (e ∷ es) w =
    omega (arith, le-widest_cell col i es (max w (str_len (cell e col i))))

cell-le-widest_cell :
    (col : TopColumn) (i : ℕ) (e : ClientEntry) (es : List ClientEntry) (w : ℕ)
    → Among e es
    → str_len (cell e col i) ≤ widest_cell col i es w
unfolding widest_cell
cell-le-widest_cell col i e [] w h = absurd h
cell-le-widest_cell col i e (x ∷ es) w (inl same) = omega (
  arith,
  ap (λ (z : ClientEntry). str_len (cell z col i)) same,
  le-widest_cell col i es (max w (str_len (cell x col i))),
)
cell-le-widest_cell col i e (x ∷ es) w (inr later) =
    cell-le-widest_cell col i e es (max w (str_len (cell x col i))) later

pub client-le-widest_client :
    (e : ClientEntry) (es : List ClientEntry)
    → Among e es
    → str_len (format_client e.client) ≤ widest_client es
unfolding widest_client
client-le-widest_client e [] h = absurd h
client-le-widest_client e (x ∷ es) (inl same) =
    omega (arith, ap (λ (z : ClientEntry). str_len (format_client z.client)) same)
client-le-widest_client e (x ∷ es) (inr later) = omega (arith, client-le-widest_client e es later)

pub six-le-widest_client : (es : List ClientEntry) → 6 ≤ widest_client es
unfolding widest_client
six-le-widest_client [] = omega arith
six-le-widest_client (e ∷ es) = omega (arith, six-le-widest_client es)

-- the width of the columns of rules, each behind two spaces
abbrev columns_width : List ℕ → ℕ
columns_width [] = 0
columns_width (w ∷ ws) = 2 + (w + columns_width ws)

pub length-bars : (fill : ℕ) (ws : List ℕ) → length (bars fill ws) ≡ columns_width ws
unfolding bars
length-bars fill [] = refl
length-bars fill (w ∷ ws) = omega (
  arith,
  length-append (pad_right fill w []) (bars fill ws),
  length-pad_right fill w [] (omega arith),
  length-bars fill ws,
)

pub length-titles :
    (i : ℕ) (cols : List TopColumn) (es : List ClientEntry)
    → length (titles cols (widths_from i cols es)) ≡ columns_width (widths_from i cols es)
unfolding titles widths_from
length-titles i [] es = refl
length-titles i (col ∷ cols) es =
    let w = max (widest_cell col i es (str_len col.rule_id)) 3 in
    omega (
      arith,
      length-append (pad_center b' ' w col.rule_id) (titles cols (widths_from (suc i) cols es)),
      length-pad_center b' ' w col.rule_id (
          omega
            (arith, length-as_bytes col.rule_id, le-widest_cell col i es (str_len col.rule_id))),
      length-titles (suc i) cols es,
    )

pub length-cells :
    (i : ℕ) (e : ClientEntry) (cols : List TopColumn) (es : List ClientEntry)
    → Among e es
    → length (cells i e cols (widths_from i cols es)) ≡ columns_width (widths_from i cols es)
unfolding cells widths_from
length-cells i e [] es h = refl
length-cells i e (col ∷ cols) es h =
    let w = max (widest_cell col i es (str_len col.rule_id)) 3 in
    omega (
      arith,
      length-append (pad_left b' ' w (cell e col i))
          (cells (suc i) e cols (widths_from (suc i) cols es)),
      length-pad_left b' ' w (cell e col i) (
          omega (
            arith,
            length-as_bytes (cell e col i),
            cell-le-widest_cell col i e es (str_len col.rule_id) h,
          )),
      length-cells (suc i) e cols es h,
    )

-- the width of the table
abbrev pub table_width : ℕ → List ℕ → ℕ
table_width client_w ws = 30 + (client_w + columns_width ws)

pub length-four :
    (mark client_w : ℕ) (a b c d : Text)
    → length a ≡ 3
    → length b ≡ client_w
    → length c ≡ action_w
    → length d ≡ action_w
    → length (four mark a b c d) ≡ 30 + client_w
length-four mark client_w a b c d ha hb hc hd = omega (
  arith,
  ha,
  hb,
  hc,
  hd,
  length-append a (codes "  " ++ (b ++ (codes "  " ++ (c ++ (codes "  " ++ d))))),
  length-append b (codes "  " ++ (c ++ (codes "  " ++ d))),
  length-append c (codes "  " ++ d),
)
