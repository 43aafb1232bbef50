-- ===== src/Manager.antt =====
-- nrdot-config-engine/manager.go with the engine of its first version (engine.go) and what a change of
-- a watched file does (handleFileChange of watcher.go). The files, the schema validator, the generator
-- and the clock are parameters.
pub mod Suffix
pub mod Follows
pub mod History
use nrdot_host.Common.{
  ℕ, ◌-◌, List, [], ◌∷◌, ◌++◌, length, drop, Bool, true, false, not, ltb, ◌==◌, ◌||◌, Option, none,
  some, if◌then◌else◌, Str, codes, str_eq,
}

-- The version text "v" with a number of seconds, and `none` for the empty text.
abbrev pub Version : Type 0
Version = Option ℕ

pub record ConfigVersion : Type 0 where
  pub version : Version
  pub timestamp : ℕ
  pub config_path : Str
  pub generated_files : List Str

-- What the hooks are told.
pub record ChangeEvent : Type 0 where
  pub config_path : Str
  pub old_version : Version
  pub new_version : Version
  pub generated_configs : List Str

-- The engine, with the file it writes and the events that its hooks were told, the last one at the end.
pub record FirstEngine : Type 0 where
  pub dry_run : Bool
  pub current_version : Version
  pub otel_config : Option Str
  pub notified : List ChangeEvent

-- `output_dir` joined with the name of the file.
abbrev pub otel_config_path : Str
otel_config_path = codes "otel-config.yaml"

-- The validator, the generator and the YAML encoder.
pub record Tools (C O : Type 0) : Type 0 where
  pub validate_yaml : Str → Option C
  pub generate : C → Option O
  pub marshal : O → Option Str

-- The file system and the clock while one path is processed: whether a path is a directory, the files
-- below it, the content of a file, whether the output directory is there in the end, and what a write
-- makes of the file and whether it succeeds.
pub record Disk : Type 0 where
  pub is_dir : Str → Option Bool
  pub walk : Str → Option (List Str)
  pub read_file : Str → Option Str
  pub mkdir_all : Bool
  pub write_file : Str → Option Str → Option Str × Bool
  pub now : Str → ℕ

pub data ProcessError : Type 0 where
  not_read not_valid not_generated not_marshalled no_directory not_written : ProcessError

-- The end of ProcessConfig: the version changes and the hooks are told; what they answer is ignored.
unfoldable pub publish : ℕ → Str → Option Str → FirstEngine → FirstEngine
publish seconds path content e = record {
  dry_run = e.dry_run;
  current_version = some seconds;
  otel_config = content;
  notified =
      e.notified
      ++ (record {
        config_path = path;
        old_version = e.current_version;
        new_version = some seconds;
        generated_configs = otel_config_path ∷ [];
      }
          ∷ []);
}

unfoldable pub write_config : Disk → Str → Str → FirstEngine → FirstEngine × Option ProcessError
write_config disk path bytes e =
    let w = disk.write_file bytes e.otel_config in
    if w.1
    then (publish (disk.now path) path w.0 e, none)
    else (record e { otel_config = w.0 }, some not_written)

abbrev pub write_marshalled :
    Disk → Str → Option Str → FirstEngine → FirstEngine × Option ProcessError
write_marshalled disk path none e = (e, some not_marshalled)
write_marshalled disk path (some bytes) e =
    if disk.mkdir_all then write_config disk path bytes e else (e, some no_directory)

module _ {C O : Type 0} (tools : Tools C O) where
  abbrev pub marshal_config :
      Disk → Str → Option O → FirstEngine → FirstEngine × Option ProcessError
  marshal_config disk path none e = (e, some not_generated)
  marshal_config disk path (some o) e = write_marshalled disk path (tools.marshal o) e

  abbrev pub process_valid : Disk → Str → Option C → FirstEngine → FirstEngine × Option ProcessError
  process_valid disk path none e = (e, some not_valid)
  process_valid disk path (some c) e =
      if e.dry_run then (e, none) else marshal_config disk path (tools.generate c) e

  abbrev pub process_data :
      Disk → Str → Option Str → FirstEngine → FirstEngine × Option ProcessError
  process_data disk path none e = (e, some not_read)
  process_data disk path (some bytes) e = process_valid disk path (tools.validate_yaml bytes) e

  unfoldable pub process_config : Disk → Str → FirstEngine → FirstEngine × Option ProcessError
  process_config disk path e = process_data disk path (disk.read_file path) e

-- `filepath.Ext`: the text from the last dot behind the last slash. `seen` is what was found so far.
unfoldable pub ext_from : Str → Str → Str
ext_from seen [] = seen
ext_from seen (c ∷ cs) = ext_from (if c == 46 then c ∷ cs else if c == 47 then [] else seen) cs

unfoldable pub is_config_file : Str → Bool
is_config_file path =
    str_eq (ext_from [] path) (codes ".yaml") || str_eq (ext_from [] path) (codes ".yml")

-- findConfigFiles, from what the walk gives.
unfoldable pub config_files : List Str → List Str
config_files [] = []
config_files (path ∷ paths) =
    let rest = config_files paths in if is_config_file path then path ∷ rest else rest

pub record Manager : Type 0 where
  pub engine : FirstEngine
  pub versions : List ConfigVersion
  pub max_versions : ℕ
  pub running : Bool

unfoldable pub new_manager : ℕ → Bool → Manager
new_manager max dry_run = record {
  engine = record { dry_run = dry_run; current_version = none; otel_config = none; notified = [] };
  versions = [];
  max_versions = if max == 0 then 10 else max;
  running = false;
}

unfoldable pub trim_versions : ℕ → List ConfigVersion → List ConfigVersion
trim_versions max vs = if ltb max (length vs) then drop (length vs - max) vs else vs

unfoldable pub add_version : ℕ → Str → Version → List Str → Manager → Manager
add_version now path version files m = record m {
  versions = trim_versions m.max_versions (
      m.versions
      ++ (record { version = version; timestamp = now; config_path = path; generated_files = files }
          ∷ []));
}

pub data InitialError : Type 0 where
  no_stat no_walk : InitialError
  not_processed : ProcessError → InitialError

pub data StartError : Type 0 where
  already_running : StartError

-- A version is recorded when the engine returns no error.
abbrev pub record_processed :
    Disk → Str → Manager → FirstEngine × Option ProcessError → Manager × Option InitialError
record_processed disk path m (e, none) =
    (add_version (disk.now path) path e.current_version [] (record m { engine = e }), none)
record_processed disk path m (e, some err) = (record m { engine = e }, some (not_processed err))

module _ {C O : Type 0} (tools : Tools C O) where
  unfoldable pub process_file : Disk → Str → Manager → Manager × Option InitialError
  process_file disk path m = record_processed disk path m (process_config tools disk path m.engine)

  -- The files of a directory: an error is logged, and the next file follows.
  unfoldable pub process_files : Disk → List Str → Manager → Manager
  process_files disk [] m = m
  process_files disk (path ∷ paths) m = process_files disk paths (process_file disk path m).0

  abbrev pub process_walked : Disk → Option (List Str) → Manager → Manager × Option InitialError
  process_walked disk none m = (m, some no_walk)
  process_walked disk (some paths) m = (process_files disk (config_files paths) m, none)

  abbrev pub process_stat : Disk → Str → Option Bool → Manager → Manager × Option InitialError
  process_stat disk path none m = (m, some no_stat)
  process_stat disk path (some true) m = process_walked disk (disk.walk path) m
  process_stat disk path (some false) m = process_file disk path m

  unfoldable pub process_initial_config : Disk → Str → Manager → Manager × Option InitialError
  process_initial_config disk path m = process_stat disk path (disk.is_dir path) m

  -- The loop of Start: an error is logged, and the next path follows.
  unfoldable pub process_paths : List (Disk × Str) → Manager → Manager
  process_paths [] m = m
  process_paths ((disk, path) ∷ paths) m =
      process_paths paths (process_initial_config disk path m).0

  unfoldable pub start_manager : List (Disk × Str) → Manager → Manager × Option StartError
  start_manager paths m =
      if m.running
      then (m, some already_running)
      else (process_paths paths (record m { running = true }), none)

  -- A change of a watched file: an error is logged.
  unfoldable pub handle_file_change : Disk → Str → Manager → Manager
  handle_file_change disk path m = record m { engine = (process_config tools disk path m.engine).0 }

-- `closed` is whether the watcher can be closed.
unfoldable pub stop_manager : Bool → Manager → Manager × Bool
stop_manager closed m =
    if not m.running
    then (m, true)
    else if not closed
    then (m, false)
    else (record m { running = false }, true)

unfoldable pub version_history : Manager → List ConfigVersion
version_history m = m.versions

-- What happens to a manager, one after the other: calls, and changes of watched files.
pub data Command : Type 0 where
  on_start : List (Disk × Str) → Command
  on_stop : Bool → Command
  on_change : Disk → Str → Command

module _ {C O : Type 0} (tools : Tools C O) where
  abbrev pub perform : Command → Manager → Manager
  perform (on_start paths) m = (start_manager tools paths m).0
  perform (on_stop closed) m = (stop_manager closed m).0
  perform (on_change disk path) m = handle_file_change tools disk path m

  abbrev pub perform_all : List Command → Manager → Manager
  perform_all [] m = m
  perform_all (c ∷ cs) m = perform_all cs (perform c m)
