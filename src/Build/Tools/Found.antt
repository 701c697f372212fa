-- ===== src/Build/Tools/Found.antt =====
-- The tools that a build can rely on behind `check_tools`.
use mkosi.Base.{
  ◌≡◌, refl, inl, inr, Bool, true, false, some, List, [], ◌∷◌, Bool-cases, Option-cases,
}
use mkosi.Base.Text.{Text, lit}
use mkosi.Base.Result.{Result, ok, failed, ◌>>=◌, ◌>>◌}
use mkosi.VersionComp.{lt}
use mkosi.Config.Enums.{Verb}
use mkosi.Build.{Config, System}
use mkosi.Build.Wants.{want_efi, is_enabled}
use mkosi.Build.Tools.{
  engine_checks, check_tool, check_systemd_tool, check_build_tools, check_tools, ukify,
  is_disk_or_esp, is_engine, when,
}

-- The tool is found, in a version that is not lower.
abbrev pub IsThere : System → List Text → Text → Type 0
IsThere system tools version =
    (tool : Text) × (system.find_binary tools ≡ some tool)
    × (lt (system.tool_version tool) version ≡ false)

check_systemd_tool-IsThere :
    (system : System) (tools : List Text) (version : Text)
    → check_systemd_tool system tools version ≡ ok tt
    → IsThere system tools version
unfolding check_systemd_tool check_tool
check_systemd_tool-IsThere system tools version h = elim (Option-cases (system.find_binary tools)) [
  | inl e ↦ cc (rw e at h)
  | inr (t, e) ↦ elim (Bool-cases (lt (system.tool_version t) version)) [
    | inl b ↦ cc (rw b at (rw e at h))
    | inr b ↦ (t, e, b)
  ]
]

first_ok : (r q : Result (Unit {0})) → (r >> q) ≡ ok tt → (r ≡ ok tt) × (q ≡ ok tt)
first_ok (failed e) q h = cc h
first_ok (ok tt) q h = (refl, h)

when_ok : (b : Bool) (r : Result (Unit {0})) → when b r ≡ ok tt → b ≡ true → r ≡ ok tt
when_ok true r h e = h
when_ok false r h e = cc e

bound_ok :
    (r : Result Bool) (f : Bool → Result (Unit {0}))
    → (r >>= f) ≡ ok tt
    → (b : Bool) × (f b ≡ ok tt) × (r ≡ ok true → b ≡ true)
bound_ok (failed e) f h = cc h
bound_ok (ok b) f h = (b, h, λ e. cc e)

each_ok :
    (a b c d e : Result (Unit {0}))
    → (a >> b >> c >> d >> e) ≡ ok tt
    → (a ≡ ok tt) × (b ≡ ok tt) × (d ≡ ok tt) × (e ≡ ok tt)
each_ok a b c d e h =
    let p = first_ok (a >> b >> c >> d) e h in
    let q = first_ok (a >> b >> c) d p.0 in
    let r = first_ok (a >> b) c q.0 in let s = first_ok a b r.0 in (s.0, s.1, q.1, p.1)

-- The checks behind the one for EFI.
abbrev checks : System → Config → Bool → Result (Unit {0})
checks system c efi =
    when efi (check_systemd_tool system ukify (lit "254"))
    >> when (is_disk_or_esp c.names.output_format)
        (check_systemd_tool system (lit "systemd-repart" ∷ []) (lit "254"))
    >> when (is_enabled c.selinux_relabel) (check_tool system (lit "setfiles" ∷ []) >> ok tt)
    >> when (is_engine c.secure_boot_key_source) (engine_checks system c)
    >> when (is_engine c.verity_key_source)
        (check_systemd_tool system (lit "systemd-repart" ∷ []) (lit "256~devel"))

-- Behind `check_tools` for the build of an image that is to boot with EFI, ukify is there, not lower
-- than version 254, and for a disk or ESP image systemd-repart is; with keys from an engine, they are
-- not lower than 256~devel.
pub check_tools-IsThere :
    (system : System) (c : Config)
    → check_tools system c Verb.build ≡ ok tt
    → (want_efi c ≡ ok true → IsThere system ukify (lit "254"))
      × (is_disk_or_esp c.names.output_format ≡ true
          → IsThere system (lit "systemd-repart" ∷ []) (lit "254"))
      × (is_engine c.secure_boot_key_source ≡ true → IsThere system ukify (lit "256~devel"))
      × (is_engine c.verity_key_source ≡ true
          → IsThere system (lit "systemd-repart" ∷ []) (lit "256~devel"))
unfolding check_tools check_build_tools
check_tools-IsThere system c h =
    let (efi, e, is_efi) = bound_ok (want_efi c) (checks system c) h in
    let k =
      each_ok (when efi (check_systemd_tool system ukify (lit "254")))
        (when (is_disk_or_esp c.names.output_format)
          (check_systemd_tool system (lit "systemd-repart" ∷ []) (lit "254")))
        (when (is_enabled c.selinux_relabel) (check_tool system (lit "setfiles" ∷ []) >> ok tt))
        (when (is_engine c.secure_boot_key_source) (engine_checks system c))
        (when (is_engine c.verity_key_source)
          (check_systemd_tool system (lit "systemd-repart" ∷ []) (lit "256~devel")))
        e in
    (
      (λ w. found ukify (lit "254") (when_ok efi _ k.0 (is_efi w))),
      (λ d.
          found (lit "systemd-repart" ∷ []) (lit "254")
            (when_ok (is_disk_or_esp c.names.output_format) _ k.1 d)),
      (λ s.
          found ukify (lit "256~devel")
            (first_ok (check_systemd_tool system ukify (lit "256~devel")) _
              (when_ok (is_engine c.secure_boot_key_source) (engine_checks system c) k.2 s)).0),
      (λ v.
          found (lit "systemd-repart" ∷ []) (lit "256~devel")
            (when_ok (is_engine c.verity_key_source) _ k.3 v)),
    )
  where
    found :
        (tools : List Text) (version : Text)
        → check_systemd_tool system tools version ≡ ok tt
        → IsThere system tools version
    found = check_systemd_tool-IsThere system
