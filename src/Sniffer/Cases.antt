-- ===== src/Sniffer/Cases.antt =====
-- What a frame can come to, as a principle: what holds of the unchanged state and of the state after
-- each dispatcher holds after `handle_frame`.
use microwaf.Prelude.{
  ℕ, ◌*◌, ◌%◌, ◌≡◌, refl, Bool, true, false, not, ◌&&◌, List, length, Option, get_or, drop, ltb,
  leb, nat_beq, if◌then◌else◌,
}
use microwaf.Prelude.Text.{Text}
use microwaf.Time.{Instant}
use microwaf.Cel.{CelContext, CelValue}
use microwaf.Sniffer.Defs.{UtcTime, Packet}
use microwaf.Sniffer.Frame.{
  Sniffer, frame_client, be16, dispatch_tcp, dispatch_udp, handle_l4, handle_frame,
}

if_rule : {A : Type 0} (Q : A → Type 0) (b : Bool) (x y : A) → Q x → Q y → Q (if b then x else y)
if_rule Q true x y hx hy = hx
if_rule Q false x y hx hy = hy

module _ {P : Type 0} (execute : P → CelContext → Option CelValue) (show_v6 : List ℕ → Text)
    (Q : Sniffer P → Type 0) (frame : List ℕ) (now : Instant) (utc : UtcTime) (s : Sniffer P)
    (unchanged : Q s)
    (on_tcp : (p : Packet) → p.client ≡ frame_client frame → Q (dispatch_tcp execute show_v6 p s))
    (on_udp : (p : Packet)
      → p.client ≡ frame_client frame
      → Q (dispatch_udp execute show_v6 p s)) where
  handle_l4_cases : (ip l4 : List ℕ) → Q (handle_l4 execute show_v6 frame ip l4 now utc s)
  unfolding handle_l4
  handle_l4_cases ip l4 =
      if_rule Q (nat_beq (get_or ip 9 0) 6 && leb 20 (length l4)) _ _ (on_tcp _ refl)
        (if_rule Q (nat_beq (get_or ip 9 0) 17 && leb 8 (length l4)) _ _ (on_udp _ refl) unchanged)

  pub handle_frame_cases : Q (handle_frame execute show_v6 frame now utc s)
  unfolding handle_frame
  handle_frame_cases = if_rule Q (ltb (length frame) 14) _ _ unchanged (
      if_rule Q (not (nat_beq (be16 frame 12) 0x0800)) _ _ unchanged (
        if_rule Q (ltb (length (drop 14 frame)) 20) _ _ unchanged (
          if_rule Q (ltb (length (drop 14 frame)) (get_or (drop 14 frame) 0 0 % 16 * 4)) _ _
            unchanged
            (handle_l4_cases (drop 14 frame)
              (drop (get_or (drop 14 frame) 0 0 % 16 * 4) (drop 14 frame))))))
