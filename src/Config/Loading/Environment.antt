-- ===== src/Config/Loading/Environment.antt =====
-- `load_environment` of mkosi/config.py.
use mkosi.Base.{none, some, List, [], ◌∷◌, ◌++◌, map}
use mkosi.Base.Text.{Text, lit}
use mkosi.Base.Dict.{Dict, insert, merge}
use mkosi.Config.Value.Sequence.{parse_environment}
use mkosi.Config.Loading.{Host, Loading, set_some, set_nonempty}

abbrev getenv_or_empty : Host → Text → Text
getenv_or_empty host key = elim (host.getenv key) [ none ↦ [] | some v ↦ v ]

abbrev concat : List (List Text) → List Text
concat [] = []
concat (ls ∷ lss) = ls ++ concat lss

unfoldable pub load_environment : Host → Loading → Dict Text
unfolding insert merge parse_environment
load_environment host c =
    let start =
      (lit "SYSTEMD_TMPFILES_FORCE_SUBVOL", lit "0")
      ∷ (lit "KERNEL_INSTALL_BYPASS", lit "1")
      ∷ (lit "SYSTEMD_HWDB_UPDATE_BYPASS", lit "1")
      ∷ [] in
    let named =
      set_some (lit "IMAGE_VERSION") c.image_version (set_some (lit "IMAGE_ID") c.image_id start) in
    let dated = set_some (lit "SOURCE_DATE_EPOCH") c.source_date_epoch named in
    let proxied =
      set_nonempty (lit "https_proxy") (host.getenv (lit "https_proxy"))
        (set_nonempty (lit "http_proxy") (host.getenv (lit "http_proxy")) dated) in
    let env = set_nonempty (lit "MKOSI_DNF") (host.getenv (lit "MKOSI_DNF")) proxied in
    merge
      (merge env (
        merge [] (
          map (λ line. parse_environment (getenv_or_empty host) line)
            (concat c.environment_files))))
      c.environment
