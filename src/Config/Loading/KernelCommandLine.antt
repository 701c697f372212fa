-- ===== src/Config/Loading/KernelCommandLine.antt =====
-- `load_kernel_command_line_extra` of mkosi/config.py.
use mkosi.Base.{Option, none, some, List, [], ◌∷◌, ◌++◌, map, any, if◌then◌else◌, ◌==◌}
use mkosi.Base.Text.{Text, lit, starts_with}
use mkosi.Base.Split.{partition}
use mkosi.Config.Architecture.{default_serial_tty}
use mkosi.Config.Loading.{Host, Loading}

-- Nothing, if the prefix begins one of the arguments.
abbrev unless_set : List Text → Text → List Text → List Text
unless_set arguments start defaults =
    if any (λ s. starts_with s start) arguments then [] else defaults

abbrev quoted : Text → Text
quoted value = if any (λ c. c == b' ') value then b'"' ∷ (value ++ lit "\"") else value

abbrev key_and_value : Text → Option Text → Text
key_and_value key none = key
key_and_value key (some value) = key ++ b'=' ∷ quoted value

abbrev argument_of : Text → Text
argument_of s = let p = partition b'=' s in key_and_value p.before p.behind

abbrev term_of : Host → Text
term_of host = elim (host.getenv (lit "TERM")) [ none ↦ lit "vt220" | some t ↦ t ]

abbrev terminal : Host → Text → List Text
terminal host tty =
    (lit "systemd.tty.term." ++ (tty ++ b'=' ∷ term_of host))
    ∷ (lit "systemd.tty.columns." ++ (tty ++ b'=' ∷ host.columns))
    ∷ (lit "systemd.tty.rows." ++ (tty ++ b'=' ∷ host.lines))
    ∷ []

unfoldable pub load_kernel_command_line_extra : Host → Loading → List Text
unfolding default_serial_tty starts_with partition
load_kernel_command_line_extra host c =
    let tty = default_serial_tty c.architecture in
    let extra = c.kernel_command_line_extra in
    lit "systemd.wants=network.target"
    ∷ lit "module_blacklist=vmw_vmci"
    ∷ (terminal host tty
        ++ (unless_set extra (lit "ip=") (
              lit "ip=enc0:any"
              ∷ lit "ip=enp0s1:any"
              ∷ lit "ip=enp0s2:any"
              ∷ lit "ip=host0:any"
              ∷ lit "ip=none"
              ∷ [])
            ++ (unless_set extra (lit "loglevel=") (lit "loglevel=4" ∷ [])
                ++ (unless_set extra (lit "SYSTEMD_SULOGIN_FORCE=")
                      (lit "SYSTEMD_SULOGIN_FORCE=1" ∷ [])
                    ++ ((if c.qemu_cdrom then lit "systemd.volatile=yes" ∷ [] else [])
                        ++ ((if c.qemu_gui
                              then []
                              else terminal host (lit "console") ++ (lit "console=" ++ tty) ∷ [])
                            ++ map argument_of extra))))))
