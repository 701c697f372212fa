-- ===== src/Build.antt =====
-- mkosi/__init__.py: what a build decides from the configuration and from what it finds. The fields of
-- `Config` that it reads, and the questions that it asks the system.
pub mod Wants
pub mod Checks
pub mod Tools
pub mod Cache
pub mod Clean
use mkosi.Base.{ℕ, Bool, Option, List}
use mkosi.Base.Text.{Text}
use mkosi.Config.Enums.{ConfigFeature, Bootloader, BiosBootloader, Architecture, Distribution}
use mkosi.Config.Value.Name.{KeySource}
use mkosi.Config.Value.Parts.{ConfigTree}
use mkosi.Config.Output.{Output}

pub record Config : Type 0 where
  pub names : Output
  pub bootable : ConfigFeature
  pub bootloader : Bootloader
  pub bios_bootloader : BiosBootloader
  pub overlay : Bool
  pub architecture : Architecture
  pub distribution : Distribution
  pub release : Text
  pub image : Option Text
  pub sign_expected_pcr : ConfigFeature
  pub selinux_relabel : ConfigFeature
  pub secure_boot_key_source : KeySource
  pub verity_key_source : KeySource
  pub base_trees : List Text
  pub tools_tree : Option Text
  pub skeleton_trees : List ConfigTree
  pub package_manager_trees : List ConfigTree
  pub extra_trees : List ConfigTree
  pub build_sources : List ConfigTree
  pub initrds : List Text
  pub sync_scripts : List Text
  pub prepare_scripts : List Text
  pub build_scripts : List Text
  pub postinst_scripts : List Text
  pub finalize_scripts : List Text
  pub build_packages : List Text
  pub incremental : Bool
  pub checksum : Bool
  pub sign : Bool
  pub nspawn_settings : Option Text
  pub manifest_format : Bool
  pub split_artifacts : Bool

-- What is asked of the system; paths are texts.
pub record System : Type 0 where
  pub exists : Text → Bool
  pub is_file : Text → Bool
  pub is_symlink : Text → Bool
  -- `os.access(path, os.X_OK)`
  pub is_executable : Text → Bool
  -- `path.is_relative_to(other)`
  pub is_relative_to : Text → Text → Bool
  -- `find_binary(*names, root=config.tools())`
  pub find_binary : List Text → Option Text
  -- `systemd_tool_version(config, tool)`
  pub tool_version : Text → Text
  -- `config.output_dir_or_cwd() / name`, and `Path.cwd()`
  pub in_output_dir : Text → Text
  pub cwd : Text
