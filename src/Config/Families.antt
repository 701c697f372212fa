-- ===== src/Config/Families.antt =====
-- Which verbs need what, and the families of distributions: mkosi/config.py and
-- mkosi/distributions/__init__.py.
use mkosi.Base.{Bool, true, false}
use mkosi.Config.Enums.{Verb, Distribution}

unfoldable pub supports_cmdline : Verb → Bool
supports_cmdline Verb.build = true
supports_cmdline Verb.shell = true
supports_cmdline Verb.boot = true
supports_cmdline Verb.qemu = true
supports_cmdline Verb.ssh = true
supports_cmdline Verb.journalctl = true
supports_cmdline Verb.coredumpctl = true
supports_cmdline Verb.burn = true
supports_cmdline Verb.vmspawn = true
supports_cmdline _ = false

unfoldable pub needs_build : Verb → Bool
needs_build Verb.build = true
needs_build Verb.shell = true
needs_build Verb.boot = true
needs_build Verb.qemu = true
needs_build Verb.serve = true
needs_build Verb.burn = true
needs_build Verb.vmspawn = true
needs_build _ = false

unfoldable pub needs_root : Verb → Bool
needs_root Verb.shell = true
needs_root Verb.boot = true
needs_root Verb.burn = true
needs_root _ = false

unfoldable pub needs_credentials : Verb → Bool
needs_credentials Verb.summary = true
needs_credentials Verb.qemu = true
needs_credentials Verb.boot = true
needs_credentials Verb.shell = true
needs_credentials _ = false

unfoldable pub is_centos_variant : Distribution → Bool
is_centos_variant Distribution.centos = true
is_centos_variant Distribution.alma = true
is_centos_variant Distribution.rocky = true
is_centos_variant Distribution.rhel = true
is_centos_variant Distribution.rhel_ubi = true
is_centos_variant _ = false

unfoldable pub is_dnf_distribution : Distribution → Bool
is_dnf_distribution Distribution.fedora = true
is_dnf_distribution Distribution.mageia = true
is_dnf_distribution Distribution.centos = true
is_dnf_distribution Distribution.rhel = true
is_dnf_distribution Distribution.rhel_ubi = true
is_dnf_distribution Distribution.openmandriva = true
is_dnf_distribution Distribution.rocky = true
is_dnf_distribution Distribution.alma = true
is_dnf_distribution _ = false

unfoldable pub is_apt_distribution : Distribution → Bool
is_apt_distribution Distribution.debian = true
is_apt_distribution Distribution.ubuntu = true
is_apt_distribution _ = false
