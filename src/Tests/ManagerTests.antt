-- ===== src/Tests/ManagerTests.antt =====
-- The configuration manager at concrete inputs.
use nrdot_host.Common.{◌≡◌, refl, [], ◌∷◌, true, false, some, List, Str, codes, map}
use nrdot_host.Engine.Log.{suffix}
use nrdot_host.Manager.{
  Tools, Disk, new_manager, version_history, Command, on_start, on_stop, on_change, perform_all,
  ext_from,
}
use nrdot_host.Manager.Suffix.{of_version, of_event}
use nrdot_host.Manager.History.{told_at_starts, version_history_lem}

-- Tools that take every text.
abbrev tools : Tools Str Str
tools = record { validate_yaml = λ s. some s; generate = λ s. some s; marshal = λ s. some s }

-- One directory with two configurations and a file that is none.
abbrev disk : Disk
disk = record {
  is_dir = λ p. some true;
  walk = λ p. some (codes "d/a.yaml" ∷ codes "d/b.txt" ∷ codes "d/c.yml" ∷ []);
  read_file = λ p. some (codes "x");
  mkdir_all = true;
  write_file = λ bytes old. (some bytes, true);
  now = λ p. 7;
}

abbrev commands : List Command
commands =
    on_start ((disk, codes "d") ∷ [])
    ∷ on_change disk (codes "d/a.yaml")
    ∷ on_stop true
    ∷ on_start ((disk, codes "d") ∷ [])
    ∷ []

-- The extension is what follows the last dot of the last part of the path.
ext_of_path : ext_from [] (codes "a.b/c.d.yml") ≡ codes ".yml"
unfolding ext_from
ext_of_path = refl

no_ext : ext_from [] (codes "a.yaml/c") ≡ []
unfolding ext_from
no_ext = refl

version_history_lem_example :
    map of_version (version_history (perform_all tools commands (new_manager 3 false)))
    ≡ suffix
        (perform_all tools commands (new_manager 3 false)).max_versions
        (map of_event (told_at_starts tools commands (new_manager 3 false)))
version_history_lem_example = version_history_lem tools 3 commands
