-- ===== src/Cli/Live.antt =====
-- crates/microwaf/src/cli/top.rs: the live view of `top`. A round is given by what the clocks, the
-- keyboard and the terminal answer in it. A panic aborts the process, as the release profile says, and a
-- signal ends it, so that nothing is dropped and the terminal stays as it is.
use microwaf.Prelude.{
  ℕ, max, Bool, true, false, ◌||◌, ◌==◌, Option, none, some, List, [], ◌∷◌, ◌++◌, nat_eq,
  if◌then◌else◌,
}
use microwaf.Prelude.Text.{Text, codes}
use microwaf.Prelude.Result.{Result, ok, err}
use microwaf.Time.{Instant, Duration, duration_since, add_duration}
use microwaf.Ipc.Wire.{Request, Response, TopParams, ClientsResult}
use microwaf.Remote
use microwaf.Remote.{ClientError}
use microwaf.Cli.Format.{decimal}
use microwaf.Cli.Top.{render_frame}

pub data LiveError : Type 0 where
  failed : Text → LiveError
  panicked : LiveError
  interrupted : LiveError

-- The attributes of a terminal: the flags that `RawMode` removes, `ISIG`, and the others.
pub record Termios : Type 0 where
  pub echo : Bool
  pub icanon : Bool
  pub isig : Bool
  pub ixon : Bool
  pub icrnl : Bool
  pub inlcr : Bool
  pub others : List ℕ

-- raw mode, which keeps `ISIG`
abbrev pub raw_of : Termios → Termios
raw_of a = record a { echo = false; icanon = false; ixon = false; icrnl = false; inlcr = false }

-- what a poll of the keyboard, and the read after it, return
pub data Polled : Type 0 where
  poll_failed : Text → Polled
  nothing : Polled
  read_failed : Text → Polled
  read_bytes : List ℕ → Polled

pub record Wait : Type 0 where
  pub checked_at : Instant
  pub polled : Polled

-- `q`, `Q` and Ctrl+C
abbrev pub is_quit : ℕ → Bool
is_quit b = b == b'q' || b == b'Q' || b == 3

unfoldable pub any_quit : List ℕ → Bool
any_quit [] = false
any_quit (b ∷ bs) = is_quit b || any_quit bs

-- What follows a poll, where `rest` is the rest of the loop. Keys for which the terminal raises a
-- signal that ends the process are not read, since the process handles no signal.
abbrev pub after_poll :
    (List ℕ → Bool) → Polled → Option (Result LiveError Bool) → Option (Result LiveError Bool)
after_poll raises (poll_failed e) rest = some (err (failed e))
after_poll raises nothing rest = some (ok false)
after_poll raises (read_failed e) rest = some (err (failed e))
after_poll raises (read_bytes []) rest = some (ok true)
after_poll raises (read_bytes (b ∷ bs)) rest =
    if raises (b ∷ bs)
    then some (err interrupted)
    else if any_quit (b ∷ bs)
    then some (ok true)
    else rest

-- the loop of `wait_quit_or_timeout`; `none` if it still waits after these polls
unfoldable pub wait_loop : (List ℕ → Bool) → Instant → List Wait → Option (Result LiveError Bool)
wait_loop raises deadline [] = none
wait_loop raises deadline (w ∷ waits) =
    let rest = wait_loop raises deadline waits in
    if duration_since deadline w.checked_at == 0
    then some (ok false)
    else after_poll raises w.polled rest

unfoldable pub wait_quit_or_timeout :
    (List ℕ → Bool) → Instant → Duration → List Wait → Option (Result LiveError Bool)
wait_quit_or_timeout raises now interval waits = elim (add_duration now interval) [
  | none ↦ some (err panicked)
  | some deadline ↦ wait_loop raises deadline waits
]

-- whether a text is written whole, or a part of it up to an error
pub data Written : Type 0 where
  whole : Written
  part : Text → Text → Written

-- the attributes of the terminal, and all that was written to it
pub record Terminal : Type 0 where
  pub attrs : Termios
  pub out : Text

pub record LiveRound : Type 0 where
  pub written : Written
  pub wait_start : Instant
  pub waits : List Wait

-- what the terminal answers at the start and at the end, where it may refuse its old attributes
pub record Session : Type 0 where
  pub got : Result Text (Unit {0})
  pub set : Result Text (Unit {0})
  pub entered : Written
  pub left : Written
  pub taken_back : Bool

-- `AlternateScreen::enter`, its drop, and the escapes around a frame
abbrev pub enter_screen : Text
enter_screen = 27 ∷ (codes "[?1049h" ++ (27 ∷ codes "[?25l"))

abbrev pub leave_screen : Text
leave_screen = 27 ∷ (codes "[?25h" ++ (27 ∷ codes "[?1049l"))

abbrev pub on_screen : Text → Text
on_screen frame = 27 ∷ (codes "[H" ++ (frame ++ (27 ∷ codes "[J")))

-- `interval.max(Duration::from_millis(50))`
abbrev pub live_interval : Duration → Duration
live_interval interval = max interval 50000000

unfoldable pub write_out : Text → Written → Terminal → Terminal × Result LiveError (Unit {0})
write_out s whole t = (record t { out = t.out ++ s }, ok tt)
write_out s (part p e) t = (record t { out = t.out ++ p }, err (failed e))

abbrev pub leave : Written → Terminal → Terminal
leave left t = (write_out leave_screen left t).0

abbrev pub restore : Bool → Termios → Terminal → Terminal
restore true orig t = record t { attrs = orig }
restore false orig t = t

-- the drops of `AlternateScreen` and of `RawMode`
unfoldable pub close_screen : Result LiveError (Unit {0}) → Written → Terminal → Terminal
close_screen (ok done) left t = leave left t
close_screen (err (failed e)) left t = leave left t
close_screen (err panicked) left t = t
close_screen (err interrupted) left t = t

unfoldable pub close_raw : Result LiveError (Unit {0}) → Bool → Termios → Terminal → Terminal
close_raw (ok done) taken orig t = restore taken orig t
close_raw (err (failed e)) taken orig t = restore taken orig t
close_raw (err panicked) taken orig t = t
close_raw (err interrupted) taken orig t = t

module _ (show_duration : Duration → Text) (show_error : ClientError → Text) (params : TopParams)
    (interval : Duration) where
  -- the frame of an answer
  abbrev pub frame_of : Result ClientError ClientsResult → Text
  frame_of (ok r) = render_frame show_duration r params.limit interval true
  frame_of (err e) =
      codes "microwaf top  -n "
      ++ (decimal params.limit
          ++ (codes "  interval="
              ++ (show_duration interval
                  ++ (codes "  q/Ctrl+C quit"
                      ++ (10 ∷ 10 ∷ (codes "error: " ++ (show_error e ++ (10 ∷ []))))))))

module _ {W : Type 0} (exchange : Request → W → W × Result ClientError Response)
    (raises : Termios → List ℕ → Bool) (show_duration : Duration → Text)
    (show_error : ClientError → Text) (params : TopParams) (interval : Duration) where
  -- the loop of `run_live`; `none` if it still runs after these rounds
  unfoldable pub live_loop :
      List LiveRound → W → Terminal → Option (W × Terminal × Result LiveError (Unit {0}))
  live_loop [] w t = none
  live_loop (r ∷ rounds) w t =
      let (next, answer) = Remote.top exchange params w in
      let (shown, wrote) =
        write_out (on_screen (frame_of show_duration show_error params interval answer)) r.written
          t in
      elim wrote [
        | err e ↦ some (next, shown, err e)
        | ok done ↦ elim (wait_quit_or_timeout (raises t.attrs) r.wait_start interval r.waits) [
          | none ↦ none
          | some (err e) ↦ some (next, shown, err e)
          | some (ok true) ↦ some (next, shown, ok tt)
          | some (ok false) ↦ live_loop rounds next shown
        ]
      ]

  -- the view on its screen
  unfoldable pub on_alternate :
      Session → List LiveRound → W → Terminal → Option (W × Terminal × Result LiveError (Unit {0}))
  on_alternate s rounds w t =
      let (opened, entered) = write_out enter_screen s.entered t in
      elim entered [
        | err e ↦ some (w, opened, err e)
        | ok done ↦ elim (live_loop rounds w opened) [
          | none ↦ none
          | some (next, shown, result) ↦ some (next, close_screen result s.left shown, result)
        ]
      ]

module _ {W : Type 0} (exchange : Request → W → W × Result ClientError Response)
    (raises : Termios → List ℕ → Bool) (show_duration : Duration → Text)
    (show_error : ClientError → Text) (params : TopParams) (interval : Duration) where
  -- `run_live`, in raw mode until its end
  unfoldable pub run_live :
      Session → List LiveRound → W → Terminal → Option (W × Terminal × Result LiveError (Unit {0}))
  run_live s rounds w t = elim s.got [
    | err e ↦ some (w, t, err (failed e))
    | ok done ↦ elim s.set [
      | err e ↦ some (w, t, err (failed e))
      | ok raw ↦
          elim (on_alternate exchange raises show_duration show_error params
            (live_interval interval) s rounds w (restore true (raw_of t.attrs) t)) [
              | none ↦ none
              | some (next, shown, result) ↦
                  some (next, close_raw result s.taken_back t.attrs shown, result)
            ]
    ]
  ]
