-- ===== src/Build/Checks.antt =====
-- `check_inputs`, `check_outputs` and `check_workspace_directory`.
use mkosi.Base.{Bool, true, false, not, Option, none, some, List, [], ◌∷◌, ◌++◌, map, if◌then◌else◌}
use mkosi.Base.Text.{Text, lit}
use mkosi.Base.Result.{Result, ok, failed, die, ◌>>◌}
use mkosi.Config.Output.{
  output_with_compression, output_checksum, output_signature, output_nspawn_settings,
}
use mkosi.Config.Value.Parts.{ConfigTree}
use mkosi.Config.Value.Boolean.{feature_eq}
use mkosi.Build.{Config, System}
use mkosi.Build.Wants.{is_disabled}

-- `die` at the first element that does not pass.
unfoldable pub each_passes : (Text → Bool) → Text → List Text → Result (Unit {0})
each_passes test message [] = ok tt
each_passes test message (x ∷ xs) =
    if test x then each_passes test message xs else failed (die message)

abbrev sources : List ConfigTree → List Text
sources ts = map (λ t. t.source) ts

abbrev of_option : Option Text → List Text
of_option none = []
of_option (some t) = t ∷ []

abbrev scripts : Config → List Text
scripts c =
    c.sync_scripts
    ++ (c.prepare_scripts ++ (c.build_scripts ++ (c.postinst_scripts ++ c.finalize_scripts)))

unfoldable pub check_initrds : System → List Text → Result (Unit {0})
check_initrds system [] = ok tt
check_initrds system (p ∷ ps) =
    if not (system.exists p)
    then failed (die (lit "Initrd not found"))
    else if not (system.is_file p)
    then failed (die (lit "Initrd is not a file"))
    else check_initrds system ps

unfoldable pub check_inputs : System → Config → Result (Unit {0})
unfolding each_passes check_initrds feature_eq
check_inputs system c =
    each_passes system.exists (lit "Base tree not found") c.base_trees
    >> each_passes system.exists (lit "Tools tree not found") (of_option c.tools_tree)
    >> each_passes system.exists (lit "Skeleton tree not found") (sources c.skeleton_trees)
    >> each_passes system.exists (lit "Package manager tree not found")
        (sources c.package_manager_trees)
    >> each_passes system.exists (lit "Extra tree not found") (sources c.extra_trees)
    >> (if is_disabled c.bootable then ok tt else check_initrds system c.initrds)
    >> each_passes system.is_executable (lit "is not executable") (scripts c)

abbrev if_set : Bool → Text → List Text
if_set b name = if b then name ∷ [] else []

abbrev has_settings : Option Text → Bool
has_settings none = false
has_settings (some s) = true

-- The names that a build must not find.
unfoldable pub outputs : Config → List Text
unfolding output_with_compression
outputs c =
    output_with_compression c.names
    ∷ (if_set c.checksum (output_checksum c.names)
        ++ (if_set c.sign (output_signature c.names)
            ++ if_set (has_settings c.nspawn_settings) (output_nspawn_settings c.names)))

unfoldable pub check_outputs : System → Config → Result (Unit {0})
unfolding each_passes outputs
check_outputs system c =
    each_passes (λ f. not (system.exists (system.in_output_dir f)))
      (lit "Output path exists already.") (outputs c)

-- `wd` is `config.workspace_dir_or_default()`.
unfoldable pub check_workspace_directory : System → (wd : Text) → Config → Result (Unit {0})
unfolding each_passes
check_workspace_directory system wd c =
    if system.is_relative_to wd system.cwd
    then failed (die (lit "must be located outside the current working directory"))
    else each_passes (λ source. not (system.is_relative_to wd source))
        (lit "cannot be a subdirectory of any source directory") (sources c.build_sources)
