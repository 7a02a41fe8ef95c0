-- ===== src/Sniffer/Isolation.antt =====
-- A frame reaches the counters of its own client only.
use microwaf.Prelude.{ℕ, List, Option, pair_eq, list_eq, nat_eq}
use microwaf.Prelude.Text.{Text}
use microwaf.Time.{Instant}
use microwaf.Cel.{CelContext, CelValue}
use microwaf.Sniffer.Defs.{UtcTime}
use microwaf.Sniffer.Frame.{Sniffer, frame_client, handle_frame}
use microwaf.Sniffer.Others.{SameOthers, SameOthers-Tracked}
use microwaf.Sniffer.Tracked.{handle_frame-Tracked}

module _ {P : Type 0} (execute : P → CelContext → Option CelValue) (show_v6 : List ℕ → Text) where
  -- A frame changes no counter of a client other than the one with the frame's source MAC and source
  -- address: neither a counter by rule nor a cumulative one.
  pub handle_frame-others :
      (frame : List ℕ) (now : Instant) (utc : UtcTime) (s : Sniffer P)
      → SameOthers
          (frame_client frame)
          s.state.counters
          (handle_frame execute show_v6 frame now utc s).state.counters
  handle_frame-others frame now utc s =
      handle_frame-Tracked SameOthers-Tracked execute show_v6 frame now utc s
