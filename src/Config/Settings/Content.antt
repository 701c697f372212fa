-- ===== src/Config/Settings/Content.antt =====
-- `SETTINGS` of mkosi/config.py: the settings of [Content].
use mkosi.Base.{true, false, some, List, [], ◌∷◌}
use mkosi.Base.Text.{lit}
use mkosi.Config.Setting.{
  Setting, setting, Section, EnumType, path_rules, Item, Pair, Parser, Matcher, Default, Factory,
}
use mkosi.Config.Settings.Options.{options}

abbrev pub package_settings : List Setting
package_settings =
    (record (setting (lit "packages") Section.content) {
      short = some (lit "-p");
      long = lit "--package";
      parse = Parser.list (options b',' false true) Item.str;
    })
    ∷ (record (setting (lit "build_packages") Section.content) {
      long = lit "--build-package";
      parse = Parser.list (options b',' false true) Item.str;
    })
    ∷ (record (setting (lit "package_directories") Section.content) {
      long = lit "--package-directory";
      parse = Parser.list (options b',' false true) (Item.path path_rules);
    })
    ∷ (record (setting (lit "with_recommends") Section.content) {
      nargs = some (lit "?");
      parse = Parser.boolean;
    })
    ∷ (record (setting (lit "with_docs") Section.content) {
      nargs = some (lit "?");
      parse = Parser.boolean;
      default = some (Default.boolean true);
    })
    ∷ (record (setting (lit "base_trees") Section.content) {
      long = lit "--base-tree";
      parse =
          Parser.list (options b',' false true)
            (Item.path (record path_rules { required = false }));
    })
    ∷ (record (setting (lit "skeleton_trees") Section.content) {
      long = lit "--skeleton-tree";
      parse = Parser.list (options b',' false true) (Item.tree true);
      paths = lit "mkosi.skeleton" ∷ lit "mkosi.skeleton.tar" ∷ [];
      path_default = false;
    })
    ∷ (record (setting (lit "extra_trees") Section.content) {
      long = lit "--extra-tree";
      parse = Parser.list (options b',' false true) (Item.tree true);
      paths = lit "mkosi.extra" ∷ lit "mkosi.extra.tar" ∷ [];
      path_default = false;
    })
    ∷ (record (setting (lit "remove_packages") Section.content) {
      long = lit "--remove-package";
      parse = Parser.list (options b',' false true) Item.str;
    })
    ∷ (record (setting (lit "remove_files") Section.content) {
      parse = Parser.list (options b',' false true) Item.str;
    })
    ∷ (record (setting (lit "clean_package_metadata") Section.content) { parse = Parser.feature })
    ∷ (record (setting (lit "source_date_epoch") Section.content) {
      parse = Parser.source_date_epoch;
      default_factory = some Factory.source_date_epoch;
      default_factory_depends = lit "environment" ∷ [];
    })
    ∷ (record (setting (lit "sync_scripts") Section.content) {
      long = lit "--sync-script";
      parse = Parser.list (options b',' false true) (Item.path path_rules);
      paths = lit "mkosi.sync" ∷ [];
    })
    ∷ (record (setting (lit "prepare_scripts") Section.content) {
      long = lit "--prepare-script";
      parse = Parser.list (options b',' false true) (Item.path path_rules);
      paths = lit "mkosi.prepare" ∷ lit "mkosi.prepare.chroot" ∷ [];
      path_default = false;
      compat_names = lit "PrepareScript" ∷ [];
    })
    ∷ []

abbrev pub script_settings : List Setting
script_settings =
    (record (setting (lit "build_scripts") Section.content) {
      long = lit "--build-script";
      parse = Parser.list (options b',' false true) (Item.path path_rules);
      paths = lit "mkosi.build" ∷ lit "mkosi.build.chroot" ∷ [];
      path_default = false;
      compat_names = lit "BuildScript" ∷ [];
    })
    ∷ (record (setting (lit "postinst_scripts") Section.content) {
      long = lit "--postinst-script";
      name = lit "PostInstallationScripts";
      parse = Parser.list (options b',' false true) (Item.path path_rules);
      paths = lit "mkosi.postinst" ∷ lit "mkosi.postinst.chroot" ∷ [];
      path_default = false;
      compat_names = lit "PostInstallationScript" ∷ [];
    })
    ∷ (record (setting (lit "finalize_scripts") Section.content) {
      long = lit "--finalize-script";
      parse = Parser.list (options b',' false true) (Item.path path_rules);
      paths = lit "mkosi.finalize" ∷ lit "mkosi.finalize.chroot" ∷ [];
      path_default = false;
      compat_names = lit "FinalizeScript" ∷ [];
    })
    ∷ (record (setting (lit "build_sources") Section.content) {
      parse = Parser.list (options b',' false true) (Item.tree false);
      match_value = some Matcher.build_sources;
      default_factory = some Factory.build_sources;
    })
    ∷ (record (setting (lit "build_sources_ephemeral") Section.content) { parse = Parser.boolean })
    ∷ (record (setting (lit "environment") Section.content) {
      short = some (lit "-E");
      parse = Parser.dict (options b' ' true true) Pair.environment;
    })
    ∷ (record (setting (lit "environment_files") Section.content) {
      long = lit "--env-file";
      parse = Parser.list (options b',' false true) (Item.path path_rules);
      paths = lit "mkosi.env" ∷ [];
      path_default = false;
    })
    ∷ (record (setting (lit "with_tests") Section.content) {
      short = some (lit "-T");
      long = lit "--without-tests";
      nargs = some (lit "?");
      const_value = some (lit "no");
      parse = Parser.boolean;
      default = some (Default.boolean true);
    })
    ∷ (record (setting (lit "with_network") Section.content) {
      nargs = some (lit "?");
      parse = Parser.boolean;
    })
    ∷ (record (setting (lit "bootable") Section.content) {
      nargs = some (lit "?");
      parse = Parser.feature;
      match_value = some Matcher.feature;
    })
    ∷ (record (setting (lit "bootloader") Section.content) {
      parse = Parser.enum EnumType.bootloader;
      choices = some EnumType.bootloader;
      default = some (Default.constant EnumType.bootloader (lit "systemd-boot"));
    })
    ∷ (record (setting (lit "bios_bootloader") Section.content) {
      parse = Parser.enum EnumType.bios_bootloader;
      choices = some EnumType.bios_bootloader;
      default = some (Default.constant EnumType.bios_bootloader (lit "none"));
    })
    ∷ (record (setting (lit "shim_bootloader") Section.content) {
      parse = Parser.enum EnumType.shim_bootloader;
      choices = some EnumType.shim_bootloader;
      default = some (Default.constant EnumType.shim_bootloader (lit "none"));
    })
    ∷ []

abbrev pub kernel_settings : List Setting
kernel_settings =
    (record (setting (lit "initrds") Section.content) {
      long = lit "--initrd";
      parse =
          Parser.list (options b',' false true)
            (Item.path (record path_rules { required = false }));
    })
    ∷ (record (setting (lit "microcode_host") Section.content) {
      nargs = some (lit "?");
      parse = Parser.boolean;
      default = some (Default.boolean false);
    })
    ∷ (record (setting (lit "initrd_packages") Section.content) {
      long = lit "--initrd-package";
      parse = Parser.list (options b',' false true) Item.str;
    })
    ∷ (record (setting (lit "kernel_command_line") Section.content) {
      parse = Parser.list (options b' ' false true) Item.str;
      default_factory_depends = lit "architecture" ∷ [];
      default_factory = some Factory.kernel_command_line;
    })
    ∷ (record (setting (lit "kernel_modules_include") Section.content) {
      parse = Parser.list (options b',' false true) Item.str;
    })
    ∷ (record (setting (lit "kernel_modules_include_host") Section.content) {
      parse = Parser.boolean;
    })
    ∷ (record (setting (lit "kernel_modules_exclude") Section.content) {
      parse = Parser.list (options b',' false true) Item.str;
    })
    ∷ (record (setting (lit "kernel_modules_initrd") Section.content) {
      nargs = some (lit "?");
      parse = Parser.boolean;
      default = some (Default.boolean true);
    })
    ∷ (record (setting (lit "kernel_modules_initrd_include") Section.content) {
      parse = Parser.list (options b',' false true) Item.str;
    })
    ∷ (record (setting (lit "kernel_modules_initrd_include_host") Section.content) {
      parse = Parser.boolean;
    })
    ∷ (record (setting (lit "kernel_modules_initrd_exclude") Section.content) {
      parse = Parser.list (options b',' false true) Item.str;
    })
    ∷ (record (setting (lit "locale") Section.content) { parse = Parser.string })
    ∷ (record (setting (lit "locale_messages") Section.content) { parse = Parser.string })
    ∷ (record (setting (lit "keymap") Section.content) { parse = Parser.string })
    ∷ (record (setting (lit "timezone") Section.content) { parse = Parser.string })
    ∷ (record (setting (lit "hostname") Section.content) { parse = Parser.string })
    ∷ (record (setting (lit "root_password") Section.content) {
      parse = Parser.root_password;
      paths = lit "mkosi.rootpw" ∷ [];
      path_read_text = true;
      path_secret = true;
    })
    ∷ []

abbrev pub login_settings : List Setting
login_settings =
    (record (setting (lit "root_shell") Section.content) { parse = Parser.string })
    ∷ (record (setting (lit "autologin") Section.content) {
      short = some (lit "-a");
      nargs = some (lit "?");
      parse = Parser.boolean;
    })
    ∷ (record (setting (lit "make_initrd") Section.content) {
      nargs = some (lit "?");
      parse = Parser.boolean;
    })
    ∷ (record (setting (lit "ssh") Section.content) {
      nargs = some (lit "?");
      parse = Parser.boolean;
    })
    ∷ (record (setting (lit "selinux_relabel") Section.content) {
      name = lit "SELinuxRelabel";
      parse = Parser.feature;
    })
    ∷ []
