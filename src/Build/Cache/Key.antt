-- ===== src/Build/Cache/Key.antt =====
-- Which images share a cache.
use mkosi.Base.{
  ℕ, ◌≡◌, ◌≢◌, refl, sym, ap, ◌∙◌, Bool, true, false, not, List, [], ◌∷◌, ◌++◌, all, All, ◌==◌,
  arith,
}
use mkosi.Base.Text.{Text, lit, remove_suffix}
use mkosi.Base.Suffix.{
  ends_with, ends_with-append, remove_suffix-append, last_char, last_char-append,
}
use mkosi.Base.Split.{join, split}
use mkosi.Config.Enums.{Distribution, Architecture}
use mkosi.Config.StrEnum.{distribution_enum, architecture_enum}
use mkosi.Build.{Config}
use mkosi.Build.Cache.{cache_key, cache_tree_paths, fragments, image_fragment}

-- A text without "~".
abbrev pub no_tilde : Text → Bool
no_tilde s = all (λ c. not (c == b'~')) s

split-one : (s : Text) → no_tilde s ≡ true → split b'~' s ≡ s ∷ []
unfolding split
split-one [] h = refl
split-one (c ∷ s) h = ground (arith, h, split-one s)

split-two : (s t : Text) → no_tilde s ≡ true → split b'~' (s ++ (b'~' ∷ t)) ≡ s ∷ split b'~' t
unfolding split
split-two [] t h = refl
split-two (c ∷ s) t h = ground (arith, h, split-two s t)

split-join :
    (s : Text) (ss : List Text)
    → All (λ t. no_tilde t ≡ true) (s ∷ ss)
    → split b'~' (join (b'~' ∷ []) (s ∷ ss)) ≡ s ∷ ss
unfolding join
split-join s [] h = split-one s h.0
split-join s (t ∷ ss) h = split-two s _ h.0 ∙ ap (λ r. s ∷ r) (split-join t ss h.1)

distribution_no_tilde : (d : Distribution) → no_tilde (distribution_enum.value d) ≡ true
distribution_no_tilde Distribution.fedora = refl
distribution_no_tilde _ = refl

architecture_no_tilde : (a : Architecture) → no_tilde (architecture_enum.value a) ≡ true
architecture_no_tilde Architecture.x86_64 = refl
architecture_no_tilde _ = refl

-- The parts of the key that the user names.
abbrev pub NoTilde : Config → Type 0
NoTilde c = All (λ t. no_tilde t ≡ true) (c.release ∷ image_fragment c.image)

fragments-NoTilde : (c : Config) → NoTilde c → All (λ t. no_tilde t ≡ true) (fragments c)
fragments-NoTilde c h =
    (distribution_no_tilde c.distribution, (h.0, (architecture_no_tilde c.architecture, h.1)))

cache_key-fragments :
    (c d : Config) → NoTilde c → NoTilde d → cache_key c ≡ cache_key d → fragments c ≡ fragments d
unfolding cache_key
cache_key-fragments c d h k e =
    sym (split-join _ _ (fragments-NoTilde c h))
    ∙ ap (split b'~') e
    ∙ split-join _ _ (fragments-NoTilde d k)

-- What a cache is made of.
pub data Part : Type 0 where
  final build manifest : Part

abbrev pub path_of : Part → Text × Text × Text → Text
path_of final (f, b, m) = f
path_of build (f, b, m) = b
path_of manifest (f, b, m) = m

abbrev name_of : Part → Text → Text
name_of final key = key ++ lit ".cache"
name_of build key = key ++ lit ".build.cache"
name_of manifest key = key ++ lit ".manifest"

path_of-names :
    (dir : Text → Text) (p : Part) (c : Config)
    → path_of p (cache_tree_paths dir c) ≡ dir (name_of p (cache_key c))
unfolding cache_tree_paths
path_of-names dir final c = refl
path_of-names dir build c = refl
path_of-names dir manifest c = refl

append_assoc : (s t u : Text) → (s ++ t) ++ u ≡ s ++ (t ++ u)
append_assoc [] t u = refl
append_assoc (c ∷ s) t u = ap (λ r. c ∷ r) (append_assoc s t u)

cancel : (s t : Text) (c : ℕ) (u : Text) → s ++ c ∷ u ≡ t ++ c ∷ u → s ≡ t
cancel s t c u e =
    sym (remove_suffix-append s c u)
    ∙ ap (λ r. remove_suffix r (c ∷ u)) e
    ∙ remove_suffix-append t c u

-- A key that does not end in ".build".
abbrev pub NoBuild : Text → Type 0
NoBuild key = ends_with key (lit ".build") ≡ false

not_build : (k l : Text) → NoBuild k → k ++ lit ".cache" ≢ l ++ lit ".build.cache"
not_build k l h e =
    let q =
      cancel k (l ++ lit ".build") b'.' (lit "cache")
        (e ∙ sym (append_assoc l (lit ".build") (lit ".cache"))) in
    cc (h, rw (sym q) at (ends_with-append l (lit ".build")))

apart :
    (k l : Text) (c d : ℕ) (s t : Text)
    → last_char (c ∷ s) ≢ last_char (d ∷ t)
    → k ++ c ∷ s ≢ l ++ d ∷ t
apart k l c d s t n e = n (sym (last_char-append k c s) ∙ ap last_char e ∙ last_char-append l d t)

e_is_not_t : ◌≢◌ {A = ℕ} b'e' b't'
e_is_not_t h = omega (arith, h)

ends_apart : (k l : Text) → k ++ lit ".cache" ≢ l ++ lit ".manifest"
ends_apart k l = apart k l b'.' b'.' (lit "cache") (lit "manifest") e_is_not_t

builds_apart : (k l : Text) → k ++ lit ".build.cache" ≢ l ++ lit ".manifest"
builds_apart k l = apart k l b'.' b'.' (lit "build.cache") (lit "manifest") e_is_not_t

names_apart :
    (p q : Part) (k l : Text)
    → NoBuild k
    → NoBuild l
    → name_of p k ≡ name_of q l
    → (p ≡ q) × (k ≡ l)
names_apart final final k l h g e = (refl, cancel k l b'.' (lit "cache") e)
names_apart build build k l h g e = (refl, cancel k l b'.' (lit "build.cache") e)
names_apart manifest manifest k l h g e = (refl, cancel k l b'.' (lit "manifest") e)
names_apart final build k l h g e = absurd (not_build k l h e)
names_apart build final k l h g e = absurd (not_build l k g (sym e))
names_apart final manifest k l h g e = absurd (ends_apart k l e)
names_apart manifest final k l h g e = absurd (ends_apart l k (sym e))
names_apart build manifest k l h g e = absurd (builds_apart k l e)
names_apart manifest build k l h g e = absurd (builds_apart l k (sym e))

-- Where no release and no name of an image has a "~", and no key ends in ".build", two of the paths of
-- cached trees and manifests are the same only for the same part of images with the same distribution,
-- release, architecture and name; `in_cache_dir` gives different names different paths.
pub cache_tree_paths-distinct :
    (in_cache_dir : Text → Text) (p q : Part) (c d : Config)
    → ((s t : Text) → in_cache_dir s ≡ in_cache_dir t → s ≡ t)
    → NoTilde c
    → NoTilde d
    → NoBuild (cache_key c)
    → NoBuild (cache_key d)
    → path_of p (cache_tree_paths in_cache_dir c) ≡ path_of q (cache_tree_paths in_cache_dir d)
    → (p ≡ q) × (fragments c ≡ fragments d)
cache_tree_paths-distinct dir p q c d injective h k u v e =
    let names = injective _ _ (sym (path_of-names dir p c) ∙ e ∙ path_of-names dir q d) in
    let r = names_apart p q (cache_key c) (cache_key d) u v names in
    (r.0, cache_key-fragments c d h k r.1)
