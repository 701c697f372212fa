-- ===== src/Tests/Builds.antt =====
-- Builds of a bootable disk image for Fedora.
use mkosi.Base.{ℕ, ◌≡◌, refl, true, false, Option, some, none, List, ◌∷◌, ◌++◌, []}
use mkosi.Base.Text.{Text, lit, text_eq, remove_prefix}
use mkosi.Base.Suffix.{ends_with}
use mkosi.Base.Dict.{contains}
use mkosi.Base.Result.{ok}
use mkosi.VersionComp.{lt, round, separator, rstrip_invalid_version_chars, ended, digits, int_from}
use mkosi.Config.Enums.{
  Verb, ConfigFeature, OutputFormat, Compression, Bootloader, BiosBootloader, Architecture,
  Distribution,
}
use mkosi.Config.Value.Name.{KeySourceType}
use mkosi.Config.Value.Boolean.{feature_eq}
use mkosi.Config.Architecture.{to_efi}
use mkosi.Distributions.Agreement.{Agrees, installer-Agrees}
use mkosi.Build.{Config, System}
use mkosi.Build.Wants.{want_efi, want_grub_efi, want_grub_bios, need_build_overlay}
use mkosi.Build.Wants.Dies.{Decides, wants-Decides}
use mkosi.Build.Tools.{check_tools, ukify, is_disk_or_esp, is_engine}
use mkosi.Build.Tools.Found.{IsThere, check_tools-IsThere}
use mkosi.Build.Cache.{
  Cache, Trees, cache_key, cache_tree_paths, fragments, save_cache, reuse_cache,
}
use mkosi.Build.Cache.Reuse.{reuse_cache-save_cache}
use mkosi.Build.Cache.Key.{final, path_of, cache_tree_paths-distinct}
use mkosi.Build.Clean.{Args, Work}

abbrev image : Config
image = record {
  names = record {
    output = lit "image";
    output_format = OutputFormat.disk;
    compress_output = Compression.none;
  };
  bootable = ConfigFeature.auto;
  bootloader = Bootloader.systemd_boot;
  bios_bootloader = BiosBootloader.grub;
  overlay = false;
  architecture = Architecture.x86_64;
  distribution = Distribution.fedora;
  release = lit "39";
  image = some (lit "base");
  sign_expected_pcr = ConfigFeature.auto;
  selinux_relabel = ConfigFeature.auto;
  secure_boot_key_source = record { type = KeySourceType.file; source = [] };
  verity_key_source = record { type = KeySourceType.engine; source = lit "pkcs11" };
  base_trees = [];
  tools_tree = none;
  skeleton_trees = [];
  package_manager_trees = [];
  extra_trees = [];
  build_sources = [];
  initrds = [];
  sync_scripts = [];
  prepare_scripts = [];
  build_scripts = lit "mkosi.build" ∷ [];
  postinst_scripts = [];
  finalize_scripts = [];
  build_packages = lit "gcc" ∷ [];
  incremental = true;
  checksum = false;
  sign = false;
  nspawn_settings = none;
  manifest_format = true;
  split_artifacts = false;
}

abbrev first_name : List Text → Option Text
first_name [] = none
first_name (t ∷ ts) = some t

abbrev system : System
system = record {
  exists = λ p. false;
  is_file = λ p. false;
  is_symlink = λ p. false;
  is_executable = λ p. true;
  is_relative_to = λ p q. false;
  find_binary = first_name;
  tool_version = λ t. lit "256";
  in_output_dir = λ p. p;
  cwd = lit "/";
}

wants-Decides_example :
    Decides (want_efi image)
    × Decides (want_grub_efi false image)
    × Decides (want_grub_bios true (λ b. false) image (lit "esp" ∷ []))
unfolding feature_eq
wants-Decides_example = wants-Decides image refl false true (λ b. false) (lit "esp" ∷ [])

image_checked : check_tools system image Verb.build ≡ ok tt
unfolding check_tools lt to_efi feature_eq round separator rstrip_invalid_version_chars ended digits
    text_eq int_from remove_prefix
image_checked = refl

check_tools-IsThere_example :
    (want_efi image ≡ ok true → IsThere system ukify (lit "254"))
    × (is_disk_or_esp image.names.output_format ≡ true
        → IsThere system (lit "systemd-repart" ∷ []) (lit "254"))
    × (is_engine image.secure_boot_key_source ≡ true → IsThere system ukify (lit "256~devel"))
    × (is_engine image.verity_key_source ≡ true
        → IsThere system (lit "systemd-repart" ∷ []) (lit "256~devel"))
check_tools-IsThere_example = check_tools-IsThere system image image_checked

abbrev built_trees : Trees ℕ
built_trees = record { root = 7; cache_overlay = none; build_overlay = some 8 }

abbrev new_trees : Trees ℕ
new_trees = record { root = 0; cache_overlay = none; build_overlay = none }

abbrev no_cache : Cache ℕ ℕ
no_cache = record { final = none; build = none; manifest = none }

reuse_cache-save_cache_example :
    reuse_cache 0
      (λ m n. true)
      (λ t root. t)
      image
      1
      (save_cache 0 image 1 built_trees no_cache)
      new_trees
    ≡ (true, record { root = 7; cache_overlay = none; build_overlay = some 8 })
unfolding need_build_overlay
reuse_cache-save_cache_example =
    reuse_cache-save_cache 0 (λ m n. true) (λ t root. t) image 1 built_trees new_trees no_cache refl
      refl refl (λ h. refl) refl

abbrev other : Config
other = record image { incremental = false }

abbrev in_cache_dir : Text → Text
in_cache_dir name = lit "mkosi.cache/" ++ name

in_cache_dir_injective : (s t : Text) → in_cache_dir s ≡ in_cache_dir t → s ≡ t
in_cache_dir_injective s t e = cc e

paths_same :
    path_of final (cache_tree_paths in_cache_dir image)
    ≡ path_of final (cache_tree_paths in_cache_dir other)
unfolding cache_tree_paths
paths_same = refl

no_build :
    (c : Config)
    → cache_key c ≡ lit "fedora~39~x86-64~base"
    → ends_with (cache_key c) (lit ".build") ≡ false
unfolding ends_with text_eq
no_build c e = rw e refl

image_key : cache_key image ≡ lit "fedora~39~x86-64~base"
unfolding cache_key
image_key = refl

other_key : cache_key other ≡ lit "fedora~39~x86-64~base"
unfolding cache_key
other_key = refl

cache_tree_paths-distinct_example : (final ≡ final) × (fragments image ≡ fragments other)
cache_tree_paths-distinct_example =
    cache_tree_paths-distinct in_cache_dir final final image other in_cache_dir_injective
      (refl, (refl, tt)) (refl, (refl, tt)) (no_build image image_key) (no_build other other_key)
      paths_same

-- Images are names, and the state is the list of outputs.
abbrev work : Work Text (List Text)
work = record {
  output_exists = λ i s. contains s i;
  output_is_symlink = λ i s. false;
  check_outputs = λ i s. ok tt;
  check_workspace_directory = λ i s. ok tt;
  is_default = λ i. false;
  run_command = λ v is s. ok s;
  remove_outputs = λ i s. ok [];
  remove_build_cache = λ i s. ok s;
  remove_package_cache = λ i s. ok s;
  run_sync = λ i s. ok s;
  run_build = λ i s. ok (i ∷ s);
  bump_image_version = λ s. ok s;
  default_tools = λ i. none;
  minimum_version = λ i. none;
  repart_offline = λ i. true;
}

abbrev args : Args
args = record { verb = Verb.build; force = 1; auto_bump = true }

abbrev two : List Text
two = lit "a" ∷ lit "b" ∷ []

installer-Agrees_example : Agrees Distribution.mageia
installer-Agrees_example = installer-Agrees Distribution.mageia
