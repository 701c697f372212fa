-- ===== src/Lib.antt =====
-- mkosi builds bespoke operating system images. It reads configuration files and command line
-- options, decides from them which images are built and how, and runs package managers and other
-- tools. This library models the part that decides: the configuration, and the pure algorithms
-- beside it. Effects on the system are not modelled.
--
-- Base: Python's `str` as a list of code points with the methods that the source uses, `dict` as an
-- association list in insertion order, and `Result`, in which `failed` is `die` or an exception.
--
-- VersionComp (mkosi/versioncomp.py): `compare_versions` with one function for each stage of its
-- loop, and the operators of `GenericVersion` on two versions. Each round takes a character off a
-- string or returns, so the fuel is one more than both strings have characters. CPython's limit on the
-- digits of `int()` is left out.
--
-- Ini (mkosi/config.py, `parse_ini`): the generator as the list of entries that it yields, which
-- ends in the end of the file or in an error. `turn` is the body of the loop over the lines.
--
-- Match (mkosi/config.py, `match_config`): the loop over the entries of [Match] and [TriggerMatch]
-- sections; Match.Meaning has the formula that the manual gives for them. Config.Parse.Matched
-- applies it to `match_config` with the conditions of the source.
--
-- Config.Enums and Config.StrEnum (mkosi/config.py, mkosi/distributions/__init__.py): the
-- enumerations and their strings; Config.Families and Config.Architecture: their methods.
-- Config.Output (mkosi/config.py): the `output_*` names of `Config`. Config.Value (mkosi/config.py):
-- `parse_boolean`, `parse_bytes`, `parse_path`, `parse_drive`, the `config_parse_*` and
-- `config_match_*` functions and the `config_make_*` ones that make them. Floating-point arithmetic,
-- `shlex`, `os` and `pathlib` are parameters.
--
-- Config.Setting and Config.Settings (mkosi/config.py, `ConfigSetting` and `SETTINGS`): the table of
-- settings with its parsers, matchers and defaults given by name, and the dictionaries by name, dest
-- and specifier.
--
-- Config.Values (mkosi/config.py): the values that the settings of the table hold, with their parsers,
-- matchers and default factories by name; `shlex`, floating-point numbers, UUIDs, the terminal and
-- the host are parameters.
--
-- Config.Parse (mkosi/config.py, `parse_config`): `finalize_default`, `expand_specifiers` and
-- `parse_new_includes` in Config.Parse.Defaults, `match_config` in Config.Parse.Condition, and
-- `parse_config_one` in Config.Parse.File. They use Ini and Match, and share a `State` with the two
-- namespaces. The file system and the values of settings are records of functions that they take.
-- The functions call each other through includes, drop-in files and defaults: `calls_within` gives
-- the calls to a depth, as Python's recursion limit does. There is no depth that is enough for each
-- configuration; for the defaults alone, three is. Config.Parse.Command has the options of the
-- command line as `ConfigAction` takes them, and Config.Parse.Main the body of `parse_config` with
-- its loop over the images in mkosi.images, up to the calls of `resolve_deps` and `load_config`. What holds for all calls of each other is shown by the
-- rule of Config.Parse.Induction; Config.Parse.Frozen and Config.Parse.Typed are such invariants.
--
-- Config.Images (mkosi/config.py, `resolve_deps`): the images that are selected, and their order.
-- `graphlib.TopologicalSorter` is a parameter. The queue has as much fuel as names can come into it.
--
-- Config.Load and Config.Loading (mkosi/config.py, `load_config`): the checks of a configuration that
-- was read, with its credentials, kernel command line and environment; what the host says is a record.
--
-- Build (mkosi/__init__.py): the decisions of a build. Build.Wants: which boot loaders and signatures
-- are made; Build.Checks and Build.Tools: the checks of inputs, outputs, the workspace and tools;
-- Build.Cache: the names of cached trees, and `have_cache`, `save_cache` and `reuse_cache` on the trees
-- that there are; Build.Clean: `needs_clean`, `run_clean` and `run_verb` over a state whose operations
-- are parameters.
--
-- Distributions (mkosi/distributions/): what the installer of each distribution says of it.
--
-- Qemu (mkosi/qemu.py): VSock connection IDs, and the choice of the binary; Qemu.Firmware: that of the
-- firmware. Partition (mkosi/partition.py): partitions and the root of a kernel command line. Manifest
-- (mkosi/manifest.py): the packages that rpm, dpkg and pacman list, and their source packages; Nevra:
-- the version among the names of rpm.
--
-- User (mkosi/user.py): `read_subrange`, and the ID maps of `become_root`. Kmod (mkosi/kmod.py): what
-- `modinfo` prints, and the modules and firmware that are required, with fuel as for images.
--
-- Not modelled: argparse itself, JSON and the summary; the steps of a build in mkosi/__init__.py, the
-- sandbox, package managers, repositories, and the command lines of virtual machines, all of which
-- run external programs or change files; warnings and log messages everywhere.
pub mod Base
pub mod Build
pub mod VersionComp
pub mod Ini
pub mod Match
pub mod Config
pub mod Distributions
pub mod User
pub mod Kmod
pub mod Qemu
pub mod Nevra
pub mod Manifest
pub mod Partition
pub mod Tests
