-- ===== src/Build/Tools.antt =====
-- `check_tool`, `check_systemd_tool` and `check_tools`: the tools that a verb needs, in their versions.
pub mod Found
use mkosi.Base.{
  Bool, true, false, not, ◌&&◌, ◌||◌, Option, none, some, List, [], ◌∷◌, if◌then◌else◌,
}
use mkosi.Base.Text.{Text, lit}
use mkosi.Base.Result.{Result, ok, failed, die, ◌>>=◌, ◌>>◌}
use mkosi.VersionComp.{lt}
use mkosi.Config.Enums.{Verb, OutputFormat}
use mkosi.Config.Value.Boolean.{feature_eq}
use mkosi.Config.Value.Name.{KeySource, KeySourceType}
use mkosi.Build.{Config, System}
use mkosi.Build.Wants.{want_efi, want_signed_pcrs, is_enabled}

abbrev found_or_die : Option Text → Result Text
found_or_die none = failed (die (lit "Could not find a tool which is required"))
found_or_die (some tool) = ok tool

unfoldable pub check_tool : System → List Text → Result Text
check_tool system tools = found_or_die (system.find_binary tools)

unfoldable pub check_systemd_tool : System → List Text → (version : Text) → Result (Unit {0})
unfolding check_tool lt
check_systemd_tool system tools version = check_tool system tools >>= λ tool.
    if lt (system.tool_version tool) version
    then failed (die (lit "a newer version is required"))
    else ok tt

abbrev pub ukify : List Text
ukify = lit "ukify" ∷ lit "/usr/lib/systemd/ukify" ∷ []

abbrev pub is_engine : KeySource → Bool
is_engine k = elim k.type [ KeySourceType.file ↦ false | KeySourceType.engine ↦ true ]

abbrev pub is_disk_or_esp : OutputFormat → Bool
is_disk_or_esp OutputFormat.disk = true
is_disk_or_esp OutputFormat.esp = true
is_disk_or_esp _ = false

abbrev pub when : Bool → Result (Unit {0}) → Result (Unit {0})
when b r = if b then r else ok tt

-- What is needed to sign with a key from an engine.
unfoldable pub engine_checks : System → Config → Result (Unit {0})
unfolding want_signed_pcrs check_systemd_tool
engine_checks system c =
    check_systemd_tool system ukify (lit "256~devel")
    >> when (want_signed_pcrs system c)
        (check_systemd_tool system (lit "systemd-measure" ∷ []) (lit "256~devel"))

unfoldable pub check_build_tools : System → Config → Result (Unit {0})
unfolding want_efi engine_checks check_systemd_tool check_tool feature_eq
check_build_tools system c = want_efi c >>= λ efi.
    when efi (check_systemd_tool system ukify (lit "254"))
    >> when (is_disk_or_esp c.names.output_format)
        (check_systemd_tool system (lit "systemd-repart" ∷ []) (lit "254"))
    >> when (is_enabled c.selinux_relabel) (check_tool system (lit "setfiles" ∷ []) >> ok tt)
    >> when (is_engine c.secure_boot_key_source) (engine_checks system c)
    >> when (is_engine c.verity_key_source)
        (check_systemd_tool system (lit "systemd-repart" ∷ []) (lit "256~devel"))

unfoldable pub check_tools : System → Config → Verb → Result (Unit {0})
unfolding check_build_tools check_systemd_tool
check_tools system c Verb.build = check_build_tools system c
check_tools system c Verb.boot = check_systemd_tool system (lit "systemd-nspawn" ∷ []) (lit "254")
check_tools system c Verb.vmspawn =
    check_systemd_tool system (lit "systemd-vmspawn" ∷ []) (lit "256~devel")
check_tools system c _ = ok tt
