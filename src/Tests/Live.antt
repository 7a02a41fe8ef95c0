-- ===== src/Tests/Live.antt =====
-- Examples: the live view of `top`, while no daemon answers.
use microwaf.Prelude.{
  ℕ, ◌||◌, ◌&&◌, ◌==◌, nat_eq, ◌≡◌, refl, inl, inr, true, none, some, List, [], ◌∷◌, ◌++◌, arith,
  Bool, false,
}
use microwaf.Prelude.Text.{Text, codes}
use microwaf.Prelude.Result.{Result, ok, err}
use microwaf.Time.{Duration, from_secs}
use microwaf.Ipc.Wire.{Request, Response, TopParams}
use microwaf.Remote
use microwaf.Remote.{ClientError, connect_failed}
use microwaf.Cli.{
  LiveError, Termios, raw_of, interrupted, nothing, read_bytes, whole, Terminal, LiveRound, Session,
  leave_screen, enter_screen, on_screen, frame_of, write_out, wait_loop, wait_quit_or_timeout,
  any_quit, close_screen, close_raw, live_loop, on_alternate, run_live, live_interval,
}
use microwaf.Cli.Restored.{run_live-restores, Leaves}
use microwaf.Cli.Keys.{FirstPress}

abbrev unreachable : Request → Unit {0} → Unit {0} × Result ClientError Response
unreachable request w = (w, err (connect_failed (codes "no socket")))

abbrev all_rows : TopParams
all_rows = record { limit = 0; rule_id = none; protocol = none; metric = none }

abbrev no_duration : Duration → Text
no_duration d = []

abbrev no_error : ClientError → Text
no_error e = codes "down"

-- a round in which nothing is pressed, and one in which `x` and `q` are
abbrev two_frames : List LiveRound
two_frames =
    (record {
      written = whole;
      wait_start = from_secs 1;
      waits = (record { checked_at = from_secs 1; polled = nothing }) ∷ [];
    })
    ∷ (record {
      written = whole;
      wait_start = from_secs 2;
      waits = (record { checked_at = from_secs 2; polled = read_bytes (b'x' ∷ b'q' ∷ []) }) ∷ [];
    })
    ∷ []

abbrev willing : Session
willing = record { got = ok tt; set = ok tt; entered = whole; left = whole; taken_back = true }

-- a terminal with all its flags on
abbrev line_mode : Termios
line_mode = record {
  echo = true;
  icanon = true;
  isig = true;
  ixon = true;
  icrnl = true;
  inlcr = true;
  others = [];
}

-- with ISIG, a terminal raises SIGINT for Ctrl+C and SIGQUIT for Ctrl+\
abbrev has_signal_key : List ℕ → Bool
has_signal_key [] = false
has_signal_key (b ∷ bs) = (b == 3 || b == 28) || has_signal_key bs

abbrev terminal_raises : Termios → List ℕ → Bool
terminal_raises a keys = a.isig && has_signal_key keys

abbrev cooked : Terminal
cooked = record { attrs = line_mode; out = [] }

abbrev down_frame : Text
down_frame = on_screen (
    frame_of no_duration no_error all_rows (live_interval (from_secs 1))
      (err (connect_failed (codes "no socket"))))

abbrev quitted : Terminal
quitted = record {
  attrs = line_mode;
  out = ((([] ++ enter_screen) ++ down_frame) ++ down_frame) ++ leave_screen;
}

ran_live :
    run_live unreachable terminal_raises no_duration no_error all_rows
      (from_secs 1)
      willing
      two_frames
      tt
      cooked
    ≡ some (tt, quitted, ok tt)
unfolding run_live on_alternate live_loop write_out wait_quit_or_timeout wait_loop any_quit
    close_screen close_raw Remote.top
ran_live = refl

-- how it ends
abbrev ended : Result LiveError (Unit {0})
ended = ok tt

run_live-restores_example :
    Leaves two_frames willing cooked quitted ended
    × ((end : Result LiveError (Unit {0}))
        → willing.got ≡ ok tt
        → willing.set ≡ ok tt
        → willing.entered ≡ whole
        → FirstPress
            (terminal_raises (raw_of line_mode))
            (live_interval (from_secs 1))
            two_frames
            end
        → ended ≡ end)
run_live-restores_example =
    run_live-restores unreachable terminal_raises no_duration no_error all_rows (from_secs 1)
      willing two_frames tt tt cooked quitted (ok tt) (ground arith, (ground arith, tt)) ran_live
      refl

-- `q` alone is the first key, and ends the view without an error.
q_first :
    FirstPress (terminal_raises (raw_of line_mode)) (live_interval (from_secs 1)) two_frames (ok tt)
q_first = (
  refl,
  inr (
    inr refl,
    (refl, inl (ground arith, ((b'x' ∷ b'q' ∷ []), refl, inl (refl, refl, ground arith)))),
  ),
)

-- Ctrl+C ends it by a signal, and leaves the terminal raw.
abbrev ctrl_c : List LiveRound
ctrl_c =
    (record {
      written = whole;
      wait_start = from_secs 1;
      waits = (record { checked_at = from_secs 1; polled = read_bytes (3 ∷ []) }) ∷ [];
    })
    ∷ []

interrupted_live :
    run_live unreachable terminal_raises no_duration no_error all_rows
      (from_secs 1)
      willing
      ctrl_c
      tt
      cooked
    ≡ some (
      tt,
      record { attrs = raw_of line_mode; out = ([] ++ enter_screen) ++ down_frame },
      err interrupted,
    )
unfolding run_live on_alternate live_loop write_out wait_quit_or_timeout wait_loop any_quit
    close_screen close_raw Remote.top
interrupted_live = refl
