-- ===== src/Cli/Commands.antt =====
-- crates/microwaf/src/cli/client.rs: the client subcommands, with the lines that they print. How values
-- are printed as JSON and by `Debug` is given.
use microwaf.Prelude.{ℕ, Bool, true, false, Option, none, some, List, [], ◌∷◌, ◌++◌, map}
use microwaf.Prelude.Text.{Text, codes}
use microwaf.Prelude.Result.{Result, ok, err}
use microwaf.Time.{Duration, as_secs}
use microwaf.Client.{ClientId, mac_string, ip_string, client_from_str}
use microwaf.Ipc.{ClientRef}
use microwaf.Ipc.Wire.{
  Request, Response, TopParams, ActionWire, ClientEntry, ClientsResult, InfoResult, RuleWire,
}
use microwaf.Remote
use microwaf.Remote.{ClientError}
use microwaf.Cli.Args.{Command, TopArgs}
use microwaf.Cli.Format.{decimal}
use microwaf.Cli.Top.{format_client, render_frame}

pub data CliError : Type 0 where
  client_failed : ClientError → CliError
  bad_client : Text → CliError
  internal : CliError

-- how values are printed
pub record Printers : Type 0 where
  pub json_info : InfoResult → Text
  pub json_clients : ClientsResult → Text
  pub json_rules : List RuleWire → Text
  pub debug_action : ActionWire → Text
  pub debug_actions : Option ActionWire → Text
  pub show_duration : Duration → Text

module _ (show_v6 : List ℕ → Text) (parse_v6 : Text → Option (List ℕ)) where
  abbrev ref_of : Result Text ClientId → Result CliError ClientRef
  ref_of (err e) = err (bad_client e)
  ref_of (ok id) = ok (record { mac = mac_string id; ip = some (ip_string show_v6 id.ip) })

  -- `parse_client`
  unfoldable pub parse_client : Text → Result CliError ClientRef
  parse_client s = ref_of (client_from_str parse_v6 s)

abbrev secs_of : Option Duration → Option ℕ
secs_of none = none
secs_of (some d) = some (as_secs d)

module _ (print : Printers) where
  -- the lines of the four listings
  unfoldable pub info_lines : Bool → InfoResult → List Text
  info_lines true r = print.json_info r ∷ []
  info_lines false r =
      (codes "microwaf "
        ++ (r.version
            ++ (codes " commit="
                ++ (r.commit
                    ++ (codes " mode=" ++ (r.mode ++ (codes " interface=" ++ r.interface)))))))
      ∷ []

  abbrev client_line : ClientEntry → Text
  client_line c =
      format_client c.client
      ++ (codes " action="
          ++ (print.debug_actions c.action
              ++ (codes " wouldBe=" ++ print.debug_actions c.would_be_action)))

  unfoldable pub client_lines : Bool → ClientsResult → List Text
  client_lines true r = print.json_clients r ∷ []
  client_lines false r = map client_line r.clients

  abbrev rule_line : RuleWire → Text
  rule_line r =
      r.id
      ++ (codes " proto="
          ++ (r.protocol
              ++ (codes " metric="
                  ++ (r.metric
                      ++ (codes " window="
                          ++ (r.window
                              ++ (codes " limit="
                                  ++ (decimal r.limit
                                      ++ (codes " action=" ++ print.debug_action r.action)))))))))

  unfoldable pub rule_lines : Bool → List RuleWire → List Text
  rule_lines true r = print.json_rules r ∷ []
  rule_lines false r = map rule_line r

  -- `top::run` where it prints one snapshot
  unfoldable pub top_lines : TopArgs → Bool → ClientsResult → List Text
  top_lines args true r = print.json_clients r ∷ []
  top_lines args false r = render_frame print.show_duration r args.limit args.interval false ∷ []

  -- what a command that succeeded says
  unfoldable pub done_lines : Bool → Text → Text → List Text
  done_lines true verb client = codes "{\"ok\":true}" ∷ []
  done_lines false verb client = (verb ++ (b' ' ∷ client)) ∷ []

  -- the end of a command: its lines, or the error of the client library
  abbrev printed :
      {A W : Type 0} → (A → List Text) → W × Result ClientError A → W × Result CliError (List Text)
  printed lines (w, ok a) = (w, ok (lines a))
  printed lines (w, err e) = (w, err (client_failed e))

  module _ {W : Type 0} (exchange : Request → W → W × Result ClientError Response)
      (show_v6 : List ℕ → Text) (parse_v6 : Text → Option (List ℕ)) where
    -- a command on a client, whose text is parsed first
    abbrev on_client :
        Result CliError ClientRef
        → (ClientRef → W → W × Result ClientError (Unit {0}))
        → Bool
        → Text
        → Text
        → W
        → W × Result CliError (List Text)
    on_client (err e) call json verb client w = (w, err e)
    on_client (ok r) call json verb client w =
        printed (λ done. done_lines json verb client) (call r w)

    abbrev top_params : TopArgs → TopParams
    top_params a = record {
      limit = a.limit;
      rule_id = a.rule_id;
      protocol = a.protocol;
      metric = a.metric;
    }

    -- `run`; `top` is run without a terminal
    unfoldable pub run_command : Command → W → W × Result CliError (List Text)
    run_command (Command.info c) w = printed (info_lines c.json) (Remote.info exchange w)
    run_command (Command.top args c) w =
        printed (top_lines args c.json) (Remote.top exchange (top_params args) w)
    run_command (Command.clients c) w =
        printed (client_lines c.json) (Remote.list_clients exchange w)
    run_command (Command.rules c) w = printed (rule_lines c.json) (Remote.list_rules exchange w)
    run_command (Command.throttle client duration rate c) w =
        on_client (parse_client show_v6 parse_v6 client)
          (λ r.
            Remote.throttle exchange
              (record { client = r; rate = some rate; duration_secs = secs_of duration }))
          c.json (codes "throttled") client w
    run_command (Command.unthrottle client c) w =
        on_client (parse_client show_v6 parse_v6 client) (Remote.unthrottle exchange) c.json
          (codes "unthrottled") client w
    run_command (Command.block client duration c) w =
        on_client (parse_client show_v6 parse_v6 client)
          (λ r. Remote.block exchange (record { client = r; duration_secs = secs_of duration }))
          c.json (codes "blocked") client w
    run_command (Command.unblock client c) w =
        on_client (parse_client show_v6 parse_v6 client) (Remote.unblock exchange) c.json
          (codes "unblocked") client w
    run_command (Command.daemon args) w = (w, err internal)
