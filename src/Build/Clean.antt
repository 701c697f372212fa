-- ===== src/Build/Clean.antt =====
-- `needs_clean`, `run_clean` and `run_verb`: what is removed and what is built, and in which order. The
-- work itself changes a state of the system, a parameter.
pub mod Built
use mkosi.Base.{
  ℕ, zero, suc, ◌≡◌, refl, Bool, true, false, not, ◌&&◌, ◌||◌, Option, none, some, List, [], ◌∷◌,
  all, ltb, ◌==◌, if◌then◌else◌,
}
use mkosi.Base.Text.{Text, lit}
use mkosi.Base.Result.{Result, ok, failed, die, assertion_error, ◌>>=◌, ◌>>◌}
use mkosi.VersionComp.{gt}
use mkosi.Config.Enums.{Verb}
use mkosi.Config.Families.{needs_root, needs_build}

-- What `run_verb` and `run_clean` read of `args`.
pub record Args : Type 0 where
  pub verb : Verb
  pub force : ℕ
  pub auto_bump : Bool

abbrev pub is_clean : Verb → Bool
is_clean Verb.clean = true
is_clean _ = false

abbrev pub is_build : Verb → Bool
is_build Verb.build = true
is_build _ = false

-- Verbs that `run_verb` returns from before it asks for a configuration, and behind that.
abbrev pub needs_no_configuration : Verb → Bool
needs_no_configuration Verb.documentation = true
needs_no_configuration Verb.genkey = true
needs_no_configuration _ = false

abbrev pub is_bump : Verb → Bool
is_bump Verb.bump = true
is_bump _ = false

abbrev pub is_shown : Verb → Bool
is_shown Verb.summary = true
is_shown Verb.journalctl = true
is_shown Verb.coredumpctl = true
is_shown Verb.ssh = true
is_shown _ = false

-- Whether the cached images and the downloaded packages are removed.
unfoldable pub removed_caches : Args → Bool × Bool
removed_caches a =
    if is_clean a.verb then (ltb 0 a.force, ltb 1 a.force) else (ltb 1 a.force, ltb 2 a.force)

-- What a state of the system says of an image, and what the commands do to it.
pub record Work (Image S : Type 0) : Type 0 where
  -- `(config.output_dir_or_cwd() / config.output_with_compression).exists()`, and `.is_symlink()`
  pub output_exists : Image → S → Bool
  pub output_is_symlink : Image → S → Bool
  -- `check_outputs(config)` and `check_workspace_directory(config)`
  pub check_outputs : Image → S → Result (Unit {0})
  pub check_workspace_directory : Image → S → Result (Unit {0})
  -- `config == Config.default()`, and the command of a verb that builds no image
  pub is_default : Image → Bool
  pub run_command : Verb → List Image → S → Result S
  -- The removal of the outputs, of the caches and of the packages of an image
  pub remove_outputs : Image → S → Result S
  pub remove_build_cache : Image → S → Result S
  pub remove_package_cache : Image → S → Result S
  -- `run_sync` and `run_build`, and `bump_image_version`
  pub run_sync : Image → S → Result S
  pub run_build : Image → S → Result S
  pub bump_image_version : S → Result S
  -- `finalize_default_tools(args, config)` where the tools tree is "default"
  pub default_tools : Image → Option Image
  pub minimum_version : Image → Option Text
  pub repart_offline : Image → Bool

module _ {Image S : Type 0} (w : Work Image S) (a : Args) (is_root : Bool) where
  unfoldable pub needs_clean : Image → S → Bool
  needs_clean i s =
      is_clean a.verb || ltb 0 a.force || not (w.output_exists i s) || w.output_is_symlink i s

  abbrev when : Bool → (S → Result S) → S → Result S
  when b f s = if b then f s else ok s

  unfoldable pub run_clean : Image → S → Result S
  unfolding needs_clean removed_caches
  run_clean i s =
      if not (needs_clean i s)
      then ok s
      else w.remove_outputs i s
        >>= when (removed_caches a).0 (w.remove_build_cache i)
        >>= when (removed_caches a).1 (w.remove_package_cache i)

  abbrev with_tools : (Image → S → Result S) → Option Image → S → Result S
  with_tools f none s = ok s
  with_tools f (some t) s = f t s

  -- All removals come first.
  unfoldable pub clean_all : List Image → S → Result S
  unfolding run_clean
  clean_all [] s = ok s
  clean_all (i ∷ is) s = with_tools run_clean (w.default_tools i) s >>= run_clean i >>= clean_all is

  unfoldable pub check_all_outputs : List Image → S → Result (Unit {0})
  check_all_outputs [] s = ok tt
  check_all_outputs (i ∷ is) s = w.check_outputs i s >> check_all_outputs is s

  abbrev too_old : Text → Option Text → Bool
  too_old version none = false
  too_old version (some minimum) = gt minimum version

  unfoldable pub check_images : (version : Text) → List Image → S → Result (Unit {0})
  unfolding gt
  check_images version [] s = ok tt
  check_images version (i ∷ is) s =
      if too_old version (w.minimum_version i)
      then failed (die (lit "mkosi or newer is required to build this configuration"))
      else if not (w.repart_offline i) && not is_root
      then failed (die (lit "Must be root to build image configured with RepartOffline=no"))
      else w.check_workspace_directory i s >> check_images version is s

  -- An image that is there is not built again.
  unfoldable pub build_missing : Image → S → Result (Bool × S)
  build_missing i s =
      if w.output_exists i s
      then ok (false, s)
      else w.run_sync i s >>= w.run_build i >>= λ t. ok (true, t)

  abbrev build_tools : Option Image → S → Result S
  build_tools none s = ok s
  build_tools (some t) s = build_missing t s >>= λ r. ok r.1

  unfoldable pub build_all : List Image → S → Result (Bool × S)
  unfolding build_missing
  build_all [] s = ok (false, s)
  build_all (i ∷ is) s = build_tools (w.default_tools i) s >>= λ t.
      build_missing i t >>= λ r. build_all is r.1 >>= λ q. ok (r.0 || q.0, q.1)

  -- The loops over the images, for clean and the verbs that build.
  unfoldable pub run_images : (version : Text) → List Image → S → Result S
  unfolding clean_all check_all_outputs check_images build_all
  run_images version images s =
      (if is_build a.verb && a.force == 0 then check_all_outputs images s else ok tt) >>= λ _.
      clean_all images s >>= λ t.
      if is_clean a.verb
      then ok t
      else check_images version images t >>= λ _. build_all images t >>= λ r.
          if r.0 && a.auto_bump then w.bump_image_version r.1 else ok r.1

  -- `run_verb`, up to the command on the last image for the verbs that build and are not build.
  unfoldable pub run_verb : (version : Text) → List Image → S → Result S
  unfolding run_images needs_root needs_build
  run_verb version images s =
      if needs_root a.verb && not is_root
      then failed (die (lit "Must be root to run the command"))
      else if needs_no_configuration a.verb
      then w.run_command a.verb images s
      else if all w.is_default images
      then failed (die (lit "No configuration found"))
      else if is_bump a.verb
      then w.bump_image_version s
      else if is_shown a.verb
      then w.run_command a.verb images s
      else if not (needs_build a.verb || is_clean a.verb)
      then failed assertion_error
      else run_images version images s
