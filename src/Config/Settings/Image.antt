-- ===== src/Config/Settings/Image.antt =====
-- `SETTINGS` of mkosi/config.py: the settings of [Config], [Distribution] and [Output].
use mkosi.Base.{true, false, some, List, [], ◌∷◌}
use mkosi.Base.Text.{lit}
use mkosi.Config.Setting.{
  Setting, setting, Section, EnumType, path_rules, Item, Parser, Matcher, Default, Factory,
}
use mkosi.Config.Settings.Options.{options, builtin_configs}

abbrev pub config_settings : List Setting
config_settings =
    (record (setting (lit "include") Section.config) {
      parse =
          Parser.list (options b',' false false)
            (Item.path (record path_rules { constants = builtin_configs }));
    })
    ∷ (record (setting (lit "initrd_include") Section.config) {
      parse = Parser.list (options b',' false false) (Item.path path_rules);
    })
    ∷ (record (setting (lit "profile") Section.config) {
      parse = Parser.profile;
      match_value = some (Matcher.string false);
    })
    ∷ (record (setting (lit "images") Section.config) {
      compat_names = lit "Presets" ∷ [];
      long = lit "--image";
      parse = Parser.list (options b',' false true) Item.str;
    })
    ∷ (record (setting (lit "dependencies") Section.config) {
      long = lit "--dependency";
      parse = Parser.list (options b',' false true) Item.str;
    })
    ∷ (record (setting (lit "minimum_version") Section.config) { parse = Parser.minimum_version })
    ∷ []

abbrev pub distribution_settings : List Setting
distribution_settings =
    (record (setting (lit "distribution") Section.distribution) {
      short = some (lit "-d");
      specifier = lit "d";
      parse = Parser.enum EnumType.distribution;
      match_value = some (Matcher.enum EnumType.distribution);
      default_factory = some Factory.distribution;
      choices = some EnumType.distribution;
    })
    ∷ (record (setting (lit "release") Section.distribution) {
      short = some (lit "-r");
      specifier = lit "r";
      parse = Parser.string;
      match_value = some (Matcher.string false);
      default_factory = some Factory.release;
      default_factory_depends = lit "distribution" ∷ [];
    })
    ∷ (record (setting (lit "architecture") Section.distribution) {
      specifier = lit "a";
      parse = Parser.enum EnumType.architecture;
      match_value = some (Matcher.enum EnumType.architecture);
      default = some Default.native_architecture;
      choices = some EnumType.architecture;
    })
    ∷ (record (setting (lit "mirror") Section.distribution) { short = some (lit "-m") })
    ∷ setting (lit "local_mirror") Section.distribution
    ∷ (record (setting (lit "repository_key_check") Section.distribution) {
      nargs = some (lit "?");
      default = some (Default.boolean true);
      parse = Parser.boolean;
    })
    ∷ (record (setting (lit "repositories") Section.distribution) {
      parse = Parser.list (options b',' false true) Item.str;
    })
    ∷ (record (setting (lit "cacheonly") Section.distribution) {
      long = lit "--cache-only";
      name = lit "CacheOnly";
      parse = Parser.enum_with_boolean EnumType.cacheonly (lit "always") (lit "none");
      default = some (Default.constant EnumType.cacheonly (lit "none"));
    })
    ∷ (record (setting (lit "package_manager_trees") Section.distribution) {
      long = lit "--package-manager-tree";
      parse = Parser.list (options b',' false true) (Item.tree true);
      default_factory = some Factory.skeleton_trees;
      default_factory_depends = lit "skeleton_trees" ∷ [];
    })
    ∷ []

abbrev pub output_settings : List Setting
output_settings =
    (record (setting (lit "output_format") Section.output) {
      short = some (lit "-t");
      long = lit "--format";
      name = lit "Format";
      specifier = lit "t";
      parse = Parser.enum EnumType.output_format;
      match_value = some (Matcher.enum EnumType.output_format);
      default = some (Default.constant EnumType.output_format (lit "disk"));
      choices = some EnumType.output_format;
    })
    ∷ (record (setting (lit "manifest_format") Section.output) {
      parse = Parser.list (options b',' false true) (Item.enum EnumType.manifest_format);
    })
    ∷ (record (setting (lit "output") Section.output) {
      short = some (lit "-o");
      specifier = lit "o";
      parse = Parser.output;
      default_factory = some Factory.output;
      default_factory_depends = lit "image_id" ∷ lit "image_version" ∷ [];
    })
    ∷ (record (setting (lit "compress_output") Section.output) {
      nargs = some (lit "?");
      parse = Parser.compression;
      default_factory = some Factory.compression;
      default_factory_depends = lit "distribution" ∷ lit "release" ∷ lit "output_format" ∷ [];
    })
    ∷ (record (setting (lit "compress_level") Section.output) {
      parse = Parser.compress_level;
      default = some (Default.number 3);
    })
    ∷ (record (setting (lit "output_dir") Section.output) {
      short = some (lit "-O");
      name = lit "OutputDirectory";
      specifier = lit "O";
      parse = Parser.path (record path_rules { required = false });
      paths = lit "mkosi.output" ∷ [];
    })
    ∷ (record (setting (lit "workspace_dir") Section.output) {
      name = lit "WorkspaceDirectory";
      parse = Parser.path (record path_rules { required = false });
    })
    ∷ (record (setting (lit "cache_dir") Section.output) {
      name = lit "CacheDirectory";
      parse = Parser.path (record path_rules { required = false });
      paths = lit "mkosi.cache" ∷ [];
    })
    ∷ (record (setting (lit "package_cache_dir") Section.output) {
      name = lit "PackageCacheDirectory";
      parse = Parser.path (record path_rules { required = false });
    })
    ∷ (record (setting (lit "build_dir") Section.output) {
      name = lit "BuildDirectory";
      parse = Parser.path (record path_rules { required = false });
      paths = lit "mkosi.builddir" ∷ [];
    })
    ∷ (record (setting (lit "image_version") Section.output) {
      match_value = some Matcher.version;
      specifier = lit "v";
      paths = lit "mkosi.version" ∷ [];
      path_read_text = true;
    })
    ∷ (record (setting (lit "image_id") Section.output) {
      match_value = some (Matcher.string true);
      specifier = lit "i";
    })
    ∷ (record (setting (lit "split_artifacts") Section.output) {
      nargs = some (lit "?");
      parse = Parser.boolean;
    })
    ∷ (record (setting (lit "repart_dirs") Section.output) {
      long = lit "--repart-dir";
      name = lit "RepartDirectories";
      parse = Parser.list (options b',' false true) (Item.path path_rules);
      paths = lit "mkosi.repart" ∷ [];
    })
    ∷ []

abbrev pub partition_settings : List Setting
partition_settings =
    (record (setting (lit "sector_size") Section.output) { parse = Parser.sector_size })
    ∷ (record (setting (lit "repart_offline") Section.output) {
      parse = Parser.boolean;
      default = some (Default.boolean true);
    })
    ∷ (record (setting (lit "overlay") Section.output) {
      nargs = some (lit "?");
      parse = Parser.boolean;
    })
    ∷ (record (setting (lit "use_subvolumes") Section.output) {
      nargs = some (lit "?");
      parse = Parser.feature;
    })
    ∷ (record (setting (lit "seed") Section.output) {
      parse = Parser.seed;
      default = some Default.random_uuid;
    })
    ∷ []
