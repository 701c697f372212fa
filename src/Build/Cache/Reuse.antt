-- ===== src/Build/Cache/Reuse.antt =====
-- A cache that was saved is reused.
use mkosi.Base.{ℕ, ◌≡◌, refl, Bool, true, false, not, ◌&&◌, Option, none, some, ◌==◌, arith}
use mkosi.Build.{Config}
use mkosi.Build.Wants.{need_build_overlay}
use mkosi.Build.Cache.{
  Cache, Trees, is_there, foreign, or_else, moved_build, linked, have_cache, save_cache,
  reuse_cache,
}

module _ {Tree Manifest : Type 0} (uid : ℕ) (equal : Manifest → Manifest → Bool)
    (copy_tree : Tree → Tree → Tree) where
  moved_there :
      (need : Bool) (o : Option Tree) (old : Option (Tree × ℕ))
      → (need ≡ true → is_there o ≡ true)
      → (need && not (is_there (moved_build uid need o old))) ≡ false
  moved_there true none old h = absurd (cc (h refl))
  moved_there true (some t) old h = refl
  moved_there false none old h = refl
  moved_there false (some t) old h = refl

  not_own : (uid == 0 && not (uid == 0)) ≡ false
  not_own = ground arith

  moved_own :
      (need : Bool) (o : Option Tree) (old : Option (Tree × ℕ))
      → foreign uid old ≡ false
      → foreign uid (moved_build uid need o old) ≡ false
  moved_own need none old h = h
  moved_own true (some t) old h = not_own
  moved_own false (some t) old h = h

  -- An incremental build without overlay whose manifest is equal to itself, which has a build overlay
  -- if it needs one, and beside whose cache no build tree of another user lies, finds a cache behind
  -- `save_cache`: `reuse_cache` copies the tree that was saved into the root, the one of the cache
  -- overlay if there is one, and takes the build tree where it is needed.
  pub reuse_cache-save_cache :
      (c : Config) (manifest : Manifest) (t u : Trees Tree) (k : Cache Tree Manifest)
      → c.incremental ≡ true
      → c.overlay ≡ false
      → equal manifest manifest ≡ true
      → (need_build_overlay c ≡ true → is_there t.build_overlay ≡ true)
      → foreign uid k.build ≡ false
      → reuse_cache uid equal copy_tree c manifest (save_cache uid c manifest t k) u ≡ (
        true,
        record u {
          root = copy_tree (or_else t.cache_overlay t.root) u.root;
          build_overlay =
              linked
                (need_build_overlay c)
                (moved_build uid (need_build_overlay c) t.build_overlay k.build)
                u.build_overlay;
        },
      )
  unfolding reuse_cache save_cache have_cache
  reuse_cache-save_cache c manifest t u k i o e b f =
      rw
        (
          i,
          o,
          moved_there (need_build_overlay c) t.build_overlay k.build b,
          e,
          moved_own (need_build_overlay c) t.build_overlay k.build f,
          not_own,
        )
        refl
