-- ===== src/Cli/Aligned.antt =====
-- The lines of the table of `top` are equally long.
use microwaf.Prelude.{
  ℕ, suc, ◌+◌, ◌<◌, ◌≤◌, ◌≡◌, refl, Bool, false, not, ◌&&◌, ◌||◌, Option, none, some, List, [], ◌∷◌,
  length, ltb, All, Among, length-append, arith, inl, inr, Bool-cases, if◌then◌else◌,
}
use microwaf.Prelude.Text.{Text, codes}
use microwaf.Ipc.Wire.{ActionWire, ClientEntry, TopColumn, ClientsResult}
use microwaf.Cli.Format.{
  decimal, pad_right, pad_left, length-pad_right, length-pad_left, length-decimal,
}
use microwaf.Cli.Top.{
  column_widths, widest_client, action_w, four, cells, format_row, titles, header, bars, separator,
  rows, table_lines, format_client, format_action, middle_dot, or_empty,
}
use microwaf.Cli.Widths.{
  length-as_bytes, client-le-widest_client, six-le-widest_client, length-bars, length-titles,
  length-cells, table_width, length-four,
}

-- the texts of the actions fit, which holds of every rate that is a byte
abbrev pub RateFits : Option ActionWire → Type 0
RateFits none = Unit
RateFits (some ActionWire.none) = Unit
RateFits (some ActionWire.block) = Unit
RateFits (some (ActionWire.throttle rate)) = rate < 256

length-format_action : (a : Option ActionWire) → RateFits a → length (format_action a) ≤ 10
unfolding format_action
length-format_action none h = omega arith
length-format_action (some ActionWire.none) h = omega arith
length-format_action (some ActionWire.block) h = omega arith
length-format_action (some (ActionWire.throttle rate)) h =
    omega (arith, length-append (decimal rate) (codes "%"), length-decimal rate (omega arith))

abbrev pub EntryFits : ClientEntry → Type 0
EntryFits e = RateFits e.action × RateFits e.would_be_action

module _ (cols : List TopColumn) (es : List ClientEntry) where
  abbrev IsAligned : Text → Type 0
  IsAligned line = length line ≡ table_width (widest_client es) (column_widths cols es)

  separator-IsAligned :
      (fill : ℕ) → IsAligned (separator fill (column_widths cols es) (widest_client es))
  unfolding separator
  separator-IsAligned fill =
      let w = widest_client es in
      omega (
        arith,
        length-append
            (four b' ' (pad_right fill 3 []) (pad_right fill w []) (pad_right fill action_w [])
              (pad_right fill action_w []))
            (bars fill (column_widths cols es)),
        length-four b' ' w (pad_right fill 3 []) (pad_right fill w []) (pad_right fill action_w [])
            (pad_right fill action_w []) (length-pad_right fill 3 [] (omega arith))
            (length-pad_right fill w [] (omega arith))
            (length-pad_right fill action_w [] (omega arith))
            (length-pad_right fill action_w [] (omega arith)),
        length-bars fill (column_widths cols es),
      )

  header-IsAligned : IsAligned (header cols (column_widths cols es) (widest_client es))
  unfolding header
  header-IsAligned =
      let w = widest_client es in
      let a = pad_left b' ' 3 (codes "#") in
      let b = pad_right b' ' w (codes "CLIENT") in
      let c = pad_right b' ' action_w (codes "ACTION") in
      let d = pad_right b' ' action_w (codes "WOULD") in
      omega (
        arith,
        length-append (four b' ' a b c d) (titles cols (column_widths cols es)),
        length-four b' ' w a b c d (length-pad_left b' ' 3 (codes "#") (omega arith))
            (length-pad_right b' ' w (codes "CLIENT") (six-le-widest_client es))
            (length-pad_right b' ' action_w (codes "ACTION") (omega arith))
            (length-pad_right b' ' action_w (codes "WOULD") (omega arith)),
        length-titles 0 cols es,
      )

  format_row-IsAligned :
      (rank : ℕ) (e : ClientEntry)
      → rank < 1000
      → EntryFits e
      → Among e es
      → IsAligned (format_row rank e cols (column_widths cols es) (widest_client es))
  unfolding format_row
  format_row-IsAligned rank e few fits h =
      let w = widest_client es in
      let mark : ℕ = if e.hot then b'*' else b' ' in
      let a = pad_left b' ' 3 (decimal rank) in
      let b = pad_right b' ' w (format_client e.client) in
      let c = pad_right b' ' action_w (format_action e.action) in
      let d = pad_right b' ' action_w (format_action e.would_be_action) in
      omega (
        arith,
        length-append (four mark a b c d) (cells 0 e cols (column_widths cols es)),
        length-four mark w a b c d (length-pad_left b' ' 3 (decimal rank) (length-decimal rank few))
            (length-pad_right b' ' w (format_client e.client) (
              omega
                (arith, length-as_bytes (format_client e.client), client-le-widest_client e es h)))
            (length-pad_right b' ' action_w (format_action e.action)
              (length-format_action e.action fits.0))
            (length-pad_right b' ' action_w (format_action e.would_be_action)
              (length-format_action e.would_be_action fits.1)),
        length-cells 0 e cols es h,
      )

  rows-IsAligned :
      (i : ℕ) (seen : Bool) (l : List ClientEntry)
      → i + length l < 1000
      → All (λ e. EntryFits e × Among e es) l
      → All IsAligned (rows i seen l cols (column_widths cols es) (widest_client es))
  unfolding rows
  rows-IsAligned i seen [] few h = tt
  rows-IsAligned i seen (e ∷ l) few h =
      let rest = rows-IsAligned (suc i) (seen || not e.hot) l (omega arith) h.1 in
      let row = format_row-IsAligned (suc i) e (omega arith) h.0.0 h.0.1 in
      elim (Bool-cases ((not e.hot && not seen) && ltb 0 i)) [
        | inl dots ↦ rw dots (separator-IsAligned middle_dot, (row, rest))
        | inr plain ↦ rw plain (row, rest)
      ]

Among-All :
    (P : ClientEntry → Type 0) (es l : List ClientEntry)
    → ((e : ClientEntry) → Among e l → Among e es)
    → All P l
    → All (λ e. P e × Among e es) l
Among-All P es [] into h = tt
Among-All P es (e ∷ l) into h =
    ((h.0, into e (inl refl)), Among-All P es l (λ x m. into x (inr m)) h.1)

or_empty-All :
    (P : Text → Type 0) (l : List ClientEntry) (lines : List Text)
    → 0 < length l
    → All P lines
    → All P (or_empty l lines)
or_empty-All P [] lines any h = absurd (omega arith)
or_empty-All P (e ∷ l) lines any h = h

-- With fewer than 1000 clients, at least one, and rates below 256, all lines of the table of `top` are
-- equally long: the header, the two kinds of separators, and the row of each client.
pub table_lines_aligned :
    (result : ClientsResult)
    → 0 < length result.clients
    → length result.clients < 1000
    → All EntryFits result.clients
    → All
        (λ line.
          length line
          ≡ table_width
              (widest_client result.clients)
              (column_widths result.columns result.clients))
        (table_lines result)
unfolding table_lines
table_lines_aligned result any few fits = (
  header-IsAligned result.columns result.clients,
  (
    separator-IsAligned result.columns result.clients b'-',
    or_empty-All
        (λ line.
          length line
          ≡ table_width (widest_client result.clients)
              (column_widths result.columns result.clients))
        result.clients
        (rows 0 false result.clients result.columns (column_widths result.columns result.clients)
          (widest_client result.clients))
        any
        (rows-IsAligned result.columns result.clients 0 false result.clients (omega arith)
          (Among-All EntryFits result.clients result.clients (λ e m. m) fits)),
  ),
)
