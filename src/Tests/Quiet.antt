-- ===== src/Tests/Quiet.antt =====
-- Examples: a client that falls silent, and the table of `top`.
use mathlib.Core.Path.{subst}
use microwaf.Prelude.{
  ◌≡◌, refl, true, false, none, some, [], ◌∷◌, All, arith, nat_eq, list_eq, length,
}
use microwaf.Prelude.Text.{codes}
use microwaf.HashMap.{get}
use microwaf.Time.{Instant, from_secs}
use microwaf.Client.{client_eq}
use microwaf.Counters.{no_counters}
use microwaf.Window.{RuleWindows, new_window}
use microwaf.Window.Recent.{elapsed_secs}
use microwaf.Window.Sums.{new_window-IsValid}
use microwaf.Window.Silent.{IsSilent, AllSilent}
use microwaf.Policy.{ClientPolicy, no_policy}
use microwaf.Enforcer.{Enforcer, bpf_enforcer}
use microwaf.Enforcer.Laws.{IsClientId, enforced, Reaches}
use microwaf.State.{DaemonState}
use microwaf.Decision.{tick, touched}
use microwaf.Decision.Quiet.{IsQuiet, tick-lifts}
use microwaf.Ipc.Wire.{ActionWire, ClientEntry, ClientsResult, TopColumn}
use microwaf.Cli.{table_lines, widest_client, column_widths}
use microwaf.Cli.Aligned.{table_lines_aligned}
use microwaf.Cli.Widths.{table_width}
use microwaf.Tests.Data.{alice, daemon}

-- blocked until five nanoseconds
abbrev was_blocked : ClientPolicy
was_blocked = record {
  manual = none;
  auto = some (record { drop_rate = 100; blocked = true; rule_id = codes "a"; until = 5 });
}

abbrev old_windows : RuleWindows
old_windows = (codes "a", new_window 0) ∷ []

abbrev silenced : DaemonState (Unit {0})
silenced = record (daemon no_counters) {
  policies = (alice, was_blocked) ∷ [];
  windows = (alice, old_windows) ∷ [];
}

abbrev later : Instant
later = from_secs 61

new_window-IsSilent : IsSilent later (new_window 0)
unfolding new_window elapsed_secs
new_window-IsSilent = record { valid = new_window-IsValid 0; empty = refl }

old_windows_silent : AllSilent later old_windows
unfolding get
old_windows_silent id w held =
    let same : new_window 0 ≡ w = ground (arith, held) in
    subst (IsSilent later) same new_window-IsSilent

alice-IsQuiet : IsQuiet later [] silenced alice
unfolding get
alice-IsQuiet = record {
  policy = was_blocked;
  has_policy = refl;
  no_manual = refl;
  no_auto = refl;
  unchanged = tt;
  silent = old_windows_silent;
}

silenced-touched : All IsClientId (touched silenced)
unfolding touched
silenced-touched = (record { mac_len = refl; ip_len = refl }, tt)

tick-lifts_example :
    (t : DaemonState (Unit {0})) × (tick silenced later ≡ some t)
    × (get alice t.policies ≡ some no_policy)
    × ((f : Enforcer) × (t.enforcer ≡ some f) × (Reaches f alice → enforced f alice ≡ none))
tick-lifts_example =
    tick-lifts silenced (bpf_enforcer []) later alice refl (ground arith) silenced-touched
      alice-IsQuiet

abbrev listed : ClientEntry
listed = record {
  client = record { mac = codes "02:00:00:00:00:01"; ip = some (codes "10.0.0.1") };
  action = some (ActionWire.throttle 50);
  would_be_action = none;
  violations = [];
  hot = false;
  stats = none;
}

abbrev column : TopColumn
column = record {
  rule_id = codes "http-rps";
  window = codes "per-second";
  limit = 100;
  min_threshold = 50;
}

abbrev result : ClientsResult
result = record { clients = listed ∷ []; columns = column ∷ [] }

table_lines_aligned_example :
    All
      (λ line.
        length line
        ≡ table_width (widest_client result.clients) (column_widths result.columns result.clients))
      (table_lines result)
table_lines_aligned_example =
    table_lines_aligned result (omega arith) (omega arith) ((omega arith, tt), tt)
