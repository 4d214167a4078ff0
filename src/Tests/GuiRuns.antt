-- ===== src/Tests/GuiRuns.antt =====
-- Runs of the desktop client.
use nicewatch.Prelude.{
  ℕ, ◌≡◌, refl, Bool, true, false, ◌&&◌, List, [], ◌∷◌, ◌++◌, Option, none, some, if◌then◌else◌,
  ◌==◌, all, any, retain, ◌∙◌, not, ◌||◌, eqb, nat_eq,
}
use nicewatch.Prelude.Text.{Text, codes, text_eq}
use nicewatch.Prelude.Scan.{lines}
use nicewatch.Prelude.Paths.{FilePath, path_eq, path_of, join, root_dir}
use nicewatch.Sync.Disk.{Host}
use nicewatch.Wire.{ServerMsg, ClientMsg}
use nicewatch.Gui.Connection.{
  Trace, Step, connected, read_frame, disconnected, command, started, attach, hear, detach, ask,
  state_after, send_command, Event, get_state,
}
use nicewatch.Gui.Connection.Shown.{shows_connected, last_snapshot, is_beat, Trace-IsShown}
use nicewatch.Gui.Connection.Told.{told, state_after-emitted}
use nicewatch.Prelude.Maps.{is_some}
use nicewatch.Gui.Connection.Asked.{error_of, is_read, channel_of, Trace-commands}
use nicewatch.Gui.Apps.Icons.{Desktop}
use nicewatch.Gui.Apps.{app_meta, resolve, scan_desktop_files}
use nicewatch.Gui.Apps.Cache.{after, app_meta-resolve}
use nicewatch.Gui.Theme.Backends.{get_kde_theme}
use nicewatch.Gui.Theme.Kde.{kde_theme}
use nicewatch.Gui.Theme.Ini.{parse_ini}
use nicewatch.Gui.Theme.Surroundings.{NativeTheme, Desk}
use nicewatch.Gui.Theme.Hex.{is_colour}
use nicewatch.Gui.Theme.KdeColours.{surfaces_of, get_native_theme-colours}
use nicewatch.Gui.Theme.{get_native_theme}
use nicewatch.Daemon.Client.{snapshot_of}
use nicewatch.Daemon.{effective_poll_interval}
use nicewatch.Rules.{from_config}
use nicewatch.Config.{default_config}
use nicewatch.Sync.{Sync}
use nicewatch.Daemon.Turn.{Reach, begun, turned, booted, turn}
use nicewatch.Daemon.Turn.State.{Daemon, Round}
use nicewatch.Gui.View.Follows.{IsFollowed}
use nicewatch.Ipc.Framing.{Json, AllJson, is_snapshot}
use nicewatch.Gui.Webview.{heard, answered, processes_of, is_told, frames_read, client_shows_table}
use nicewatch.Tests.Data.{a_sync, a_host, info_of}
use nicewatch.Prelude.{map}
use nicewatch.Wire.{Snapshot}
use nicewatch.Tests.PollRuns.{at_start}
use nicewatch.Tests.TurnRuns.{fixed, a_round}
use nicewatch.Tests.IpcRuns.{server_json}

-- A second section sets the name again.
abbrev an_entry_file : Text
an_entry_file =
    codes "[Desktop Entry]"
    ++ (10
        ∷ (codes "Name=Browser"
            ++ (10
                ∷ (codes "Exec=env A=1 browser"
                    ++ (10 ∷ (codes "[Desktop Action new]" ++ (10 ∷ codes "Name=New Window")))))))

abbrev applications : FilePath
applications = path_of (codes "/usr/share/applications")

abbrev a_desktop : Desktop
a_desktop = record {
  host = record {
    files =
        (
          join applications (codes "b.desktop"),
          record { content = an_entry_file; mtime = 1; is_readable = true },
        )
        ∷ [];
    dirs = [];
    instant = 0;
    wall = 0;
  };
  read_dir =
      λ d. if d == applications then some (join applications (codes "b.desktop") ∷ []) else none;
  home = none;
  encode = λ t. t;
  to_uppercase = λ c. c ∷ [];
}

app_meta-resolve_example :
    (app_meta a_desktop
      (codes "/usr/bin/browser")
      (after a_desktop (codes "/usr/bin/browser" ∷ codes "/bin/sh" ∷ []) none)).0
    ≡ resolve a_desktop (scan_desktop_files a_desktop) (codes "/usr/bin/browser")
app_meta-resolve_example =
    app_meta-resolve a_desktop (codes "/usr/bin/browser" ∷ codes "/bin/sh" ∷ [])
      (codes "/usr/bin/browser")

abbrev some_steps : List Step
some_steps =
    command (ClientMsg.hello (codes "gui"))
    ∷ read_frame (codes "n")
    ∷ connected
    ∷ disconnected
    ∷ connected
    ∷ []

a_trace : Trace true some_steps
a_trace = ask (hear (attach (detach (attach started))) (codes "n")) (ClientMsg.hello (codes "gui"))

-- A page that has missed that the connection was made, and hears a snapshot.
abbrev some_late : List Step
some_late = command (ClientMsg.hello (codes "gui")) ∷ read_frame (codes "s") ∷ []

abbrev some_early : List Step
some_early = connected ∷ disconnected ∷ connected ∷ []

a_late_trace : Trace true (some_late ++ some_early)
a_late_trace =
    ask (hear (attach (detach (attach started))) (codes "s")) (ClientMsg.hello (codes "gui"))

a_beat : any (is_beat server_json) some_late ≡ true
unfolding any nicewatch.Prelude.Text.is_empty nicewatch.Prelude.Scan.trim
    nicewatch.Prelude.Scan.trim_start nicewatch.Prelude.Text.is_space
    nicewatch.Prelude.Text.text_beq
a_beat = refl

Trace-IsShown_example :
    (shows_connected server_json (told server_json some_late) ≡ true)
    × (get_state (state_after server_json (some_late ++ some_early))
        ≡ last_snapshot server_json (some_late ++ some_early))
    × (is_some (state_after server_json (some_late ++ some_early)).send ≡ true)
Trace-IsShown_example =
    Trace-IsShown server_json some_late some_early (told server_json some_late) a_late_trace a_beat
      (state_after-emitted server_json some_late some_early)

Trace-commands_example :
    ((send_command (ClientMsg.hello (codes "x")) (state_after server_json some_steps)).0
      ≡ error_of true (is_read some_steps))
    × ((state_after server_json (command (ClientMsg.hello (codes "x")) ∷ some_steps)).send
        ≡ channel_of true (command (ClientMsg.hello (codes "x")) ∷ some_steps))
Trace-commands_example = Trace-commands server_json (ClientMsg.hello (codes "x")) a_trace

abbrev kde_file_text : Text
kde_file_text =
    codes "[Colors:Window]"
    ++ (10
        ∷ (codes "BackgroundNormal=12,13,14"
            ++ (10 ∷ (codes "[Colors:Button]" ++ (10 ∷ codes "BackgroundNormal=1,2,3")))))

abbrev a_desk : Desk
a_desk = record {
  home = some (codes "/home/u");
  host = record {
    files =
        (
          join (join (path_of (codes "/home/u")) (codes ".config")) (codes "kdeglobals"),
          record { content = kde_file_text; mtime = 1; is_readable = true },
        )
        ∷ [];
    dirs = [];
    instant = 0;
    wall = 0;
  };
  run = λ bin args. none;
  to_lowercase = λ t. t;
  is_dim = λ r g b. true;
  scaled = λ t. 0;
}

abbrev of_kde : NativeTheme
of_kde = record {
  bg = codes "#0c0d0e";
  sidebar = codes "#0c0d0e";
  surface = codes "#010203";
  surface_hover = codes "#010203";
  text = codes "#ffffff";
  muted = codes "#888888";
  muted2 = codes "#888888";
  border = codes "#010203";
  accent = [];
  dark = true;
}

is_kde : get_kde_theme a_desk ≡ some of_kde
unfolding get_kde_theme kde_theme parse_ini lines path_of all nicewatch.Sync.Disk.read_file
    nicewatch.Sync.Disk.content_of nicewatch.Gui.Theme.Kde.ini_colour
    nicewatch.Gui.Theme.Kde.colour_in nicewatch.Gui.Theme.Ini.ini_lines
    nicewatch.Gui.Theme.Backends.kde_file nicewatch.Gui.Theme.Backends.kde_in
    nicewatch.Gui.Theme.Kde.kde_with nicewatch.Gui.Theme.Ini.split_once
    nicewatch.Gui.Theme.Colours.first_three nicewatch.Gui.Theme.Colours.hex_digit
    nicewatch.Gui.Theme.Colours.is_dark nicewatch.Gui.Theme.Colours.parse_all
    nicewatch.Gui.Theme.Colours.rgb nicewatch.Gui.Theme.Colours.rgb_tuple_to_hex
    nicewatch.Gui.Theme.Colours.trim_start_where nicewatch.Gui.Theme.Colours.tuple_hex
    nicewatch.Gui.Theme.Colours.unquote nicewatch.Prelude.Maps.get nicewatch.Prelude.Maps.insert
    nicewatch.Prelude.Paths.path_beq nicewatch.Prelude.Paths.pieces nicewatch.Prelude.Text.text_beq
    nicewatch.Prelude.Text.starts_with nicewatch.Prelude.Text.is_empty
    nicewatch.Prelude.Text.is_space nicewatch.Prelude.retain nicewatch.Prelude.Scan.split_on
    nicewatch.Prelude.Scan.trim nicewatch.Prelude.Scan.trim_start nicewatch.Prelude.Scan.trim_end
    nicewatch.Prelude.Scan.ends_with nicewatch.Prelude.Scan.find_char
    nicewatch.Prelude.Scan.trim_start_char nicewatch.Prelude.Scan.Numbers.digits_value
    nicewatch.Prelude.Scan.Numbers.parse_i64
is_kde = refl

get_native_theme-colours_example :
    all is_colour ((get_native_theme a_desk).accent ∷ surfaces_of (get_native_theme a_desk)) ≡ true
get_native_theme-colours_example = get_native_theme-colours a_desk is_kde

-- A daemon without configuration files, and a round with a hello and no poll.
abbrev bare_host : Host
bare_host = record a_host { files = [] }

abbrev idle_sync : Sync
idle_sync = record a_sync { pending_promote = false; local_changed_at = none }

abbrev a_greeting : Round ℕ
a_greeting = record a_round { now = 4; host = bare_host }

abbrev at_boot : Daemon Bool ℕ
at_boot = booted fixed at_start.manager idle_sync bare_host 3

abbrev greeted : Daemon Bool ℕ
greeted = (turn fixed a_greeting at_boot).1

abbrev a_message : ServerMsg ℕ
a_message = ServerMsg.snapshot (
    snapshot_of [] (from_config default_config) [] (effective_poll_interval none default_config) 0
      (0, 0))

greeted_outbox : greeted.loop.outbox ≡ a_message ∷ []
unfolding turn nicewatch.Daemon.Turn.before_poll nicewatch.Daemon.Turn.serve
    nicewatch.Daemon.Turn.serve_all nicewatch.Daemon.Client.handle_client_msg
    nicewatch.Daemon.Client.broadcast_snapshot nicewatch.Daemon.Turn.watch
    nicewatch.Daemon.Turn.changes_of nicewatch.Daemon.Turn.on_events
    nicewatch.Daemon.Turn.write_back nicewatch.Daemon.Turn.poll_if_due
    nicewatch.Daemon.Turn.reloaded nicewatch.Daemon.Turn.told_promotion booted
    nicewatch.Sync.Writing.tick nicewatch.Sync.poll_mtimes nicewatch.Prelude.Maps.get
    nicewatch.Sync.initial_load nicewatch.Sync.snapshot_mtimes nicewatch.Prelude.Maps.insert
    nicewatch.Sync.Disk.file_mtime nicewatch.Sync.Disk.mtime_of nicewatch.Prelude.Paths.path_beq
    nicewatch.Prelude.Text.text_beq effective_poll_interval
greeted_outbox = refl

-- The hello frame is the older one.
abbrev hello_message : ServerMsg ℕ
hello_message = ServerMsg.hello (codes "nicewatch") (codes "1") 0

abbrev client_json : Json (ServerMsg ℕ)
client_json = record {
  to_json = λ m. if is_told m then codes "s" else codes "h";
  from_json = λ t. if t == codes "h" then some hello_message else some a_message;
}

frames_are_json : AllJson client_json (a_message ∷ hello_message ∷ [])
unfolding all nicewatch.Prelude.Scan.trim nicewatch.Prelude.Scan.trim_end
    nicewatch.Prelude.Scan.trim_start nicewatch.Prelude.Text.is_space
    nicewatch.Prelude.Text.is_empty nicewatch.Prelude.Text.text_beq
frames_are_json = (
  record { decodes = refl; one_line = refl; trimmed = refl; some_text = refl; utf8 = refl },
  (record { decodes = refl; one_line = refl; trimmed = refl; some_text = refl; utf8 = refl }, tt),
)

has_snapshot : any (is_snapshot client_json) (a_message ∷ hello_message ∷ []) ≡ true
unfolding any
has_snapshot = refl

all_told : a_message ∷ [] ≡ retain is_told (a_message ∷ hello_message ∷ []) ++ []
unfolding retain
all_told = refl

-- The page has listened since the hello, and `get_state` has answered with a snapshot before.
abbrev a_picture : Snapshot ℕ
a_picture = record {
  processes = info_of 9 (codes "z") 0 ∷ [];
  rules = [];
  prompts = [];
  poll_interval_ms = 1000;
  system_cpu = 7;
  system_mem_total_kb = 8;
  system_mem_used_kb = 4;
}

abbrev page_events : List (Event ℕ)
page_events = told client_json (frames_read client_json (a_message ∷ hello_message ∷ []))

abbrev client_steps : List Step
client_steps = connected ∷ disconnected ∷ []

events_heard :
    (state_after client_json
      (frames_read client_json (a_message ∷ hello_message ∷ []) ++ client_steps)).emitted
    ≡ page_events ++ (state_after client_json client_steps).emitted
events_heard =
    state_after-emitted client_json (frames_read client_json (a_message ∷ hello_message ∷ []))
      client_steps

client_shows_table_example :
    IsFollowed fixed.moved
      (processes_of (map heard page_events ++ answered a_picture ∷ []))
      greeted.loop.full_info
client_shows_table_example =
    client_shows_table client_json fixed at_start.manager idle_sync bare_host 3
      (a_message ∷ hello_message ∷ []) [] client_steps page_events (answered a_picture ∷ [])
      (turned begun a_greeting) (greeted_outbox ∙ all_told) has_snapshot frames_are_json
      events_heard
