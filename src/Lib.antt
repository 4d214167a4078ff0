-- ===== src/Lib.antt =====
-- Nicewatch: a daemon that gives processes a niceness, an io priority and cgroup limits by rules,
-- and flags likely games. A poll scans /proc (daemon/src/proc_scan.rs), flags games
-- (daemon/src/game_detect.rs, known_games.rs), resolves each process to a target (rules.rs) and
-- applies it (applier.rs, main.rs); the rules come from two files that sync.rs keeps in step, and
-- clients change them over a socket (messages of common/src/lib.rs, handled in main.rs).
--
-- Prelude: numbers, signed numbers, texts as lists of code points, paths, association lists, and
--   what the daemon uses of Rust's `str` and `Path`.
-- Priority, Config: common/src/lib.rs (Tier, Preset, Rule, AppConfig) and daemon/src/config.rs
--   (parse, validate).
-- Proc: daemon/src/proc_scan.rs (parse_stat, read_proc_entry, scan_proc, the readings of the
--   system), on the texts of the files of /proc.
-- Detect, Detect/Known: daemon/src/game_detect.rs (detect_game) and known_games.rs (KnownGames).
-- Rules: daemon/src/rules.rs (RuleSet, resolve).
-- Applier: the values of daemon/src/applier.rs that go to and come from the kernel.
-- Cgroup: CgroupManager of daemon/src/applier.rs (new, sync_pid, forget, shutdown, the controllers,
--   the crash recovery and the sweep), apply_limits and discover_cgroup_base, over a kernel that is
--   a type with operations (`Fs`); what cgroupfs documents of moves is the record `IsCgroupFs`.
-- Sync: daemon/src/sync.rs. `Host` is the disk as a map of files with their modification times,
--   and `Env` says what the system permits and stands for the toml crate.
-- Wire: the messages of common/src/lib.rs, over a type that stands for `f32`.
-- Daemon: daemon/src/main.rs. `decide`, `poll_flags` and `apply_target` are the steps of the poll
--   loop for one process, Daemon/Poll the loop over the entries of a scan, Daemon/Cycle the end of
--   the poll, Daemon/Tables the difference of two polls, Daemon/Prompts the questions to the
--   clients, Daemon/Client the handler of their requests, and Daemon/Turn a round of the main loop,
--   which composes the requests, the changed files, the tick of the sync and the poll; `Reach` are
--   the states that rounds reach, whatever each finds.
-- Ipc: daemon/src/ipc.rs. A client's channel is what was sent on it; the steps of the accept loop,
--   the main loop and the threads of the clients are actions, which a run takes in any order.
--   Ipc/Framing is the framing by lines of common/src/lib.rs, the reader of the requests and the
--   reader of daemon/src/cli.rs; a number beyond the characters stands for a byte that is not UTF-8.
-- Gui: the desktop client. Gui/View is what it shows after the messages it got
--   (gui/src/lib/store.svelte.ts), Gui/Connection the connection and the commands (connect_loop,
--   UiState and the commands of gui/src-tauri/src/lib.rs) with its steps as a relation, Gui/Webview
--   the processes of a page, which hears events only once it listens and may use an answer of
--   `get_state`, Gui/Apps the desktop entries (apps.rs), Gui/Theme the colours (theme.rs), and
--   Gui/Settings the settings (settings.rs).
-- Setup: daemon/src/setup.rs, over a disk and the calls of systemctl, as a monad of steps that may
--   fail and keep what they have done.
-- Tests: concrete runs.
--
-- State is passed explicitly. A `HashMap` or `BTreeMap` is an association list; texts of `u32` and
-- `u64` numbers are bounded where the source parses them. Loops are recursion on the list they go
-- over, so no fuel is needed. Times are in milliseconds, and an instant is a number.
--
-- Not modelled: the binding of the socket, the printing of daemon/src/cli.rs and of the status of
-- daemon/src/setup.rs, the arguments, signals and log of daemon/src/main.rs, the floating-point
-- percentages, the lookup of user names, and of the desktop client the window, the tray, the guard
-- of the single instance and its calls of systemctl and pkexec. The toml, serde_json and base64
-- crates, the system calls, floating point, the case of characters beyond ASCII and the file watcher
-- are parameters.
pub mod Prelude
pub mod Priority
pub mod Config
pub mod Proc
pub mod Detect
pub mod Rules
pub mod Applier
pub mod Sync
pub mod Wire
pub mod Cgroup
pub mod Ipc
pub mod Setup
pub mod Daemon
pub mod Gui
pub mod Tests
