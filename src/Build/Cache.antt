-- ===== src/Build/Cache.antt =====
-- The cached trees of an image: `cache_tree_paths`, `have_cache`, `save_cache` and `reuse_cache`. A tree
-- and the manifest of a cache are parameters; `uid` is `os.getuid()`.
pub mod Reuse
pub mod Key
use mkosi.Base.{
  ℕ, ◌≡◌, ◌≢◌, refl, Bool, true, false, not, ◌&&◌, ◌||◌, Option, none, some, List, [], ◌∷◌, ◌++◌,
  ◌==◌, if◌then◌else◌, arith,
}
use mkosi.Base.Text.{Text, lit}
use mkosi.Base.Split.{join}
use mkosi.Config.StrEnum.{distribution_enum, architecture_enum}
use mkosi.Build.{Config}
use mkosi.Build.Wants.{need_build_overlay}

abbrev pub image_fragment : Option Text → List Text
image_fragment none = []
image_fragment (some []) = []
image_fragment (some (c ∷ s)) = (c ∷ s) ∷ []

abbrev pub fragments : Config → List Text
fragments c =
    distribution_enum.value c.distribution
    ∷ c.release
    ∷ architecture_enum.value c.architecture
    ∷ image_fragment c.image

-- `'~'.join(str(s) for s in fragments)`
unfoldable pub cache_key : Config → Text
unfolding join
cache_key c = join (b'~' ∷ []) (fragments c)

-- The three paths in the cache directory; `in_cache_dir` is `config.cache_dir / name`.
unfoldable pub cache_tree_paths : (in_cache_dir : Text → Text) → Config → Text × Text × Text
unfolding cache_key
cache_tree_paths in_cache_dir c =
    let key = cache_key c in
    (
      in_cache_dir (key ++ lit ".cache"),
      in_cache_dir (key ++ lit ".build.cache"),
      in_cache_dir (key ++ lit ".manifest"),
    )

-- What is at these paths: a tree with its owner, and the manifest.
pub record Cache (Tree Manifest : Type 0) : Type 0 where
  pub final : Option (Tree × ℕ)
  pub build : Option (Tree × ℕ)
  pub manifest : Option Manifest

-- The trees of a build: `context.root`, and the overlays in the workspace.
pub record Trees (Tree : Type 0) : Type 0 where
  pub root : Tree
  pub cache_overlay : Option Tree
  pub build_overlay : Option Tree

abbrev pub is_there : {A : Type 0} → Option A → Bool
is_there none = false
is_there (some a) = true

-- `p.exists() and os.getuid() == 0 and p.stat().st_uid != 0`
abbrev pub foreign : {Tree : Type 0} → ℕ → Option (Tree × ℕ) → Bool
foreign uid none = false
foreign uid (some (tree, owner)) = uid == 0 && not (owner == 0)

abbrev pub same_manifest :
    {Manifest : Type 0} → (Manifest → Manifest → Bool) → Manifest → Option Manifest → Bool
same_manifest equal m none = false
same_manifest equal m (some prev) = equal prev m

abbrev pub or_else : {A : Type 0} → Option A → A → A
or_else none a = a
or_else (some b) a = b

abbrev pub moved_build :
    {Tree : Type 0} → ℕ → Bool → Option Tree → Option (Tree × ℕ) → Option (Tree × ℕ)
moved_build uid need none old = old
moved_build uid need (some t) old = if need then some (t, uid) else old

abbrev pub copied : {Tree : Type 0} → (Tree → Tree → Tree) → Option (Tree × ℕ) → Tree → Tree
copied copy_tree none root = root
copied copy_tree (some (tree, owner)) root = copy_tree tree root

abbrev pub linked : {Tree : Type 0} → Bool → Option (Tree × ℕ) → Option Tree → Option Tree
linked true (some (tree, owner)) old = some tree
linked _ _ old = old

module _ {Tree Manifest : Type 0} where
  -- `manifest` is `config.cache_manifest()`, and `equal` compares as JSON.
  unfoldable pub have_cache :
      ℕ → (Manifest → Manifest → Bool) → Config → Manifest → Cache Tree Manifest → Bool
  unfolding need_build_overlay
  have_cache uid equal c manifest k =
      if not c.incremental || c.overlay
      then false
      else if not (is_there k.final) || (need_build_overlay c && not (is_there k.build))
      then false
      else if not (same_manifest equal manifest k.manifest)
      then false
      else not (foreign uid k.final || foreign uid k.build)

  -- The cache behind `save_cache`.
  unfoldable pub save_cache :
      ℕ → Config → Manifest → Trees Tree → Cache Tree Manifest → Cache Tree Manifest
  unfolding need_build_overlay
  save_cache uid c manifest t k = if not c.incremental || c.overlay then k else record {
    final = some (or_else t.cache_overlay t.root, uid);
    build = moved_build uid (need_build_overlay c) t.build_overlay k.build;
    manifest = some manifest;
  }

  -- The trees behind `reuse_cache`, and whether there was a cache.
  unfoldable pub reuse_cache :
      ℕ
      → (Manifest → Manifest → Bool)
      → (copy_tree : Tree → Tree → Tree) → Config
      → Manifest
      → Cache Tree Manifest
      → Trees Tree
      → Bool × Trees Tree
  unfolding have_cache need_build_overlay
  reuse_cache uid equal copy_tree c manifest k t =
      if not (have_cache uid equal c manifest k) then (false, t) else (
        true,
        record t {
          root = copied copy_tree k.final t.root;
          build_overlay = linked (need_build_overlay c) k.build t.build_overlay;
        },
      )
