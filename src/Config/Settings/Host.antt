-- ===== src/Config/Settings/Host.antt =====
-- `SETTINGS` of mkosi/config.py: the settings of [Validation] and [Host].
use mkosi.Base.{true, false, some, List, [], ◌∷◌}
use mkosi.Base.Text.{lit}
use mkosi.Config.Setting.{
  Setting, setting, Section, EnumType, path_rules, Item, Pair, Parser, Default, Factory,
}
use mkosi.Config.Settings.Options.{options}

abbrev pub validation_settings : List Setting
validation_settings =
    (record (setting (lit "secure_boot") Section.validation) {
      nargs = some (lit "?");
      parse = Parser.boolean;
    })
    ∷ (record (setting (lit "secure_boot_auto_enroll") Section.validation) {
      parse = Parser.boolean;
      default = some (Default.boolean true);
    })
    ∷ (record (setting (lit "secure_boot_key") Section.validation) {
      parse = Parser.key;
      paths = lit "mkosi.key" ∷ [];
    })
    ∷ (record (setting (lit "secure_boot_key_source") Section.validation) {
      parse = Parser.key_source;
      default = some Default.key_source_file;
    })
    ∷ (record (setting (lit "secure_boot_certificate") Section.validation) {
      parse = Parser.path path_rules;
      paths = lit "mkosi.crt" ∷ [];
    })
    ∷ (record (setting (lit "secure_boot_sign_tool") Section.validation) {
      parse = Parser.enum EnumType.secure_boot_sign_tool;
      default = some (Default.constant EnumType.secure_boot_sign_tool (lit "auto"));
      choices = some EnumType.secure_boot_sign_tool;
    })
    ∷ (record (setting (lit "verity_key") Section.validation) {
      parse = Parser.key;
      paths = lit "mkosi.key" ∷ [];
    })
    ∷ (record (setting (lit "verity_key_source") Section.validation) {
      parse = Parser.key_source;
      default = some Default.key_source_file;
    })
    ∷ (record (setting (lit "verity_certificate") Section.validation) {
      parse = Parser.path path_rules;
      paths = lit "mkosi.crt" ∷ [];
    })
    ∷ (record (setting (lit "sign_expected_pcr") Section.validation) { parse = Parser.feature })
    ∷ (record (setting (lit "passphrase") Section.validation) {
      parse = Parser.path (record path_rules { required = false; secret = true });
      paths = lit "mkosi.passphrase" ∷ [];
    })
    ∷ (record (setting (lit "checksum") Section.validation) {
      nargs = some (lit "?");
      parse = Parser.boolean;
    })
    ∷ (record (setting (lit "sign") Section.validation) {
      nargs = some (lit "?");
      parse = Parser.boolean;
    })
    ∷ setting (lit "key") Section.validation
    ∷ []

abbrev pub tools_settings : List Setting
tools_settings =
    (record (setting (lit "incremental") Section.host) {
      short = some (lit "-i");
      nargs = some (lit "?");
      parse = Parser.boolean;
    })
    ∷ (record (setting (lit "nspawn_settings") Section.host) {
      name = lit "NSpawnSettings";
      long = lit "--settings";
      parse = Parser.path path_rules;
      paths = lit "mkosi.nspawn" ∷ [];
    })
    ∷ (record (setting (lit "extra_search_paths") Section.host) {
      long = lit "--extra-search-path";
      parse = Parser.list (options b',' false true) (Item.path path_rules);
    })
    ∷ (record (setting (lit "ephemeral") Section.host) {
      parse = Parser.boolean;
      nargs = some (lit "?");
    })
    ∷ (record (setting (lit "credentials") Section.host) {
      long = lit "--credential";
      parse = Parser.dict (options b' ' true true) Pair.credential;
    })
    ∷ (record (setting (lit "kernel_command_line_extra") Section.host) {
      parse = Parser.list (options b' ' false true) Item.str;
    })
    ∷ (record (setting (lit "acl") Section.host) { nargs = some (lit "?"); parse = Parser.boolean })
    ∷ (record (setting (lit "tools_tree") Section.host) {
      parse =
          Parser.path (record path_rules { required = false; constants = (lit "default" ∷ []) });
      paths = lit "mkosi.tools" ∷ [];
    })
    ∷ (record (setting (lit "tools_tree_distribution") Section.host) {
      parse = Parser.enum EnumType.distribution;
      default_factory_depends = lit "distribution" ∷ [];
      default_factory = some Factory.tools_tree_distribution;
    })
    ∷ (record (setting (lit "tools_tree_release") Section.host) {
      parse = Parser.string;
      default_factory_depends = lit "tools_tree_distribution" ∷ [];
      default_factory = some Factory.tools_tree_release;
    })
    ∷ (record (setting (lit "tools_tree_mirror") Section.host) {
      default_factory_depends = lit "distribution" ∷ lit "tools_tree_distribution" ∷ [];
      default_factory = some Factory.tools_tree_mirror;
    })
    ∷ (record (setting (lit "tools_tree_repositories") Section.host) {
      long = lit "--tools-tree-repository";
      parse = Parser.list (options b',' false true) Item.str;
    })
    ∷ (record (setting (lit "tools_tree_package_manager_trees") Section.host) {
      long = lit "--tools-tree-package-manager-tree";
      parse = Parser.list (options b',' false true) (Item.tree true);
    })
    ∷ (record (setting (lit "tools_tree_packages") Section.host) {
      long = lit "--tools-tree-package";
      parse = Parser.list (options b',' false true) Item.str;
    })
    ∷ (record (setting (lit "runtime_trees") Section.host) {
      long = lit "--runtime-tree";
      parse = Parser.list (options b',' false true) (Item.tree false);
    })
    ∷ []

abbrev pub runtime_settings : List Setting
runtime_settings =
    (record (setting (lit "runtime_size") Section.host) { parse = Parser.bytes })
    ∷ (record (setting (lit "runtime_scratch") Section.host) { parse = Parser.feature })
    ∷ (record (setting (lit "runtime_network") Section.host) {
      parse = Parser.enum EnumType.network;
      default = some (Default.constant EnumType.network (lit "user"));
    })
    ∷ (record (setting (lit "ssh_key") Section.host) {
      parse = Parser.path (record path_rules { secret = true });
      paths = lit "mkosi.key" ∷ [];
    })
    ∷ (record (setting (lit "ssh_certificate") Section.host) {
      parse = Parser.path path_rules;
      paths = lit "mkosi.crt" ∷ [];
    })
    ∷ (record (setting (lit "qemu_gui") Section.host) {
      nargs = some (lit "?");
      parse = Parser.boolean;
    })
    ∷ (record (setting (lit "qemu_smp") Section.host) { default = some (Default.text (lit "1")) })
    ∷ (record (setting (lit "qemu_mem") Section.host) { default = some (Default.text (lit "2G")) })
    ∷ (record (setting (lit "qemu_kvm") Section.host) {
      nargs = some (lit "?");
      parse = Parser.feature;
    })
    ∷ (record (setting (lit "qemu_vsock") Section.host) {
      nargs = some (lit "?");
      parse = Parser.feature;
    })
    ∷ (record (setting (lit "qemu_vsock_cid") Section.host) {
      name = lit "QemuVsockConnectionId";
      long = lit "--qemu-vsock-cid";
      parse = Parser.vsock_cid;
      default = some Default.vsock_hash;
    })
    ∷ (record (setting (lit "qemu_swtpm") Section.host) {
      nargs = some (lit "?");
      parse = Parser.feature;
    })
    ∷ (record (setting (lit "qemu_cdrom") Section.host) {
      nargs = some (lit "?");
      parse = Parser.boolean;
    })
    ∷ (record (setting (lit "qemu_firmware") Section.host) {
      parse = Parser.enum EnumType.qemu_firmware;
      default = some (Default.constant EnumType.qemu_firmware (lit "auto"));
      choices = some EnumType.qemu_firmware;
    })
    ∷ (record (setting (lit "qemu_firmware_variables") Section.host) {
      parse = Parser.path path_rules;
    })
    ∷ (record (setting (lit "qemu_kernel") Section.host) { parse = Parser.path path_rules })
    ∷ []

abbrev pub qemu_settings : List Setting
qemu_settings =
    (record (setting (lit "qemu_drives") Section.host) {
      long = lit "--qemu-drive";
      parse = Parser.list (options b' ' false true) Item.drive;
    })
    ∷ (record (setting (lit "qemu_args") Section.host) {
      parse = Parser.list (options b' ' false true) Item.str;
    })
    ∷ []
