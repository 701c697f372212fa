-- ===== src/Config/Settings.antt =====
-- `SETTINGS` of mkosi/config.py, and the dictionaries by which a setting is found.
pub mod Options
pub mod Image
pub mod Content
pub mod Host
pub mod Laws
use mkosi.Base.{
  Bool, true, false, not, ◌&&◌, Option, none, some, List, [], ◌∷◌, ◌++◌, map, if◌then◌else◌,
}
use mkosi.Base.Text.{Text}
use mkosi.Base.Dict.{Dict, lookup, merge}
use mkosi.Ini.{is_empty}
use mkosi.Config.Setting.{Setting, post_init}
use mkosi.Config.Settings.Image.{
  config_settings, distribution_settings, output_settings, partition_settings,
}
use mkosi.Config.Settings.Content.{
  package_settings, script_settings, kernel_settings, login_settings,
}
use mkosi.Config.Settings.Host.{
  validation_settings, tools_settings, runtime_settings, qemu_settings,
}

abbrev rows : List Setting
rows =
    config_settings
    ++ (distribution_settings
        ++ (output_settings
            ++ (partition_settings
                ++ (package_settings
                    ++ (script_settings
                        ++ (kernel_settings
                            ++ (login_settings
                                ++ (validation_settings
                                    ++ (tools_settings
                                        ++ (runtime_settings ++ qemu_settings))))))))))

-- `SETTINGS`, each row after `__post_init__`
unfoldable pub settings : List Setting
unfolding post_init
settings = map post_init rows

-- `[s.name, *s.compat_names]`
abbrev pub names_of : Setting → List Text
names_of s = s.name ∷ s.compat_names

abbrev pub under_names : Setting → Dict Setting
under_names s = map (λ n. (n, s)) (names_of s)

-- The pairs from which each dictionary is made, in the order of the table.
abbrev pub by_name : List Setting → Dict Setting
by_name [] = []
by_name (s ∷ ss) = under_names s ++ by_name ss

abbrev pub by_dest : List Setting → Dict Setting
by_dest ss = map (λ s. (s.dest, s)) ss

abbrev pub by_specifier : List Setting → Dict Setting
by_specifier [] = []
by_specifier (s ∷ ss) =
    if is_empty s.specifier then by_specifier ss else (s.specifier, s) ∷ by_specifier ss

-- `SETTINGS_LOOKUP_BY_NAME.get(name)`
unfoldable pub setting_by_name : Text → Option Setting
unfolding settings
setting_by_name name = lookup name (merge [] (by_name settings))

-- `SETTINGS_LOOKUP_BY_DEST.get(dest)`
unfoldable pub setting_by_dest : Text → Option Setting
unfolding settings
setting_by_dest dest = lookup dest (merge [] (by_dest settings))

-- `SETTINGS_LOOKUP_BY_SPECIFIER.get(c)`
unfoldable pub setting_by_specifier : Text → Option Setting
unfolding settings
setting_by_specifier c = lookup c (merge [] (by_specifier settings))
