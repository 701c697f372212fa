-- ===== src/Build/Clean/Built.antt =====
-- What `run_verb` does for each image: the removals, and then the builds of the outputs that are missing.
use mkosi.Base.{◌≡◌, ◌⊎◌, Bool, true, List, All}
use mkosi.Base.Text.{Text}
use mkosi.Base.Result.{ok}
use mkosi.Base.Result.Post.{Post}
use mkosi.Build.Clean.{Args, Work, clean_all}

-- States that one gets to by syncs, builds and version bumps: nothing is removed by `run_clean`.
pub data Reaches {Image S : Type 0} (w : Work Image S) : S → S → Type 0 where
  stays : {s : S} → Reaches w s s
  syncs : {s t u : S} (i : Image) → w.run_sync i s ≡ ok t → Reaches w t u → Reaches w s u
  builds : {s t u : S} (i : Image) → w.run_build i s ≡ ok t → Reaches w t u → Reaches w s u
  bumps : {s t u : S} → w.bump_image_version s ≡ ok t → Reaches w t u → Reaches w s u

-- Between the two states, the output of the image was found, or the image was built.
abbrev pub Made : {Image S : Type 0} → Work Image S → Image → S → S → Type 0
Made {Image} {S} w i s u =
    (m : S) × Reaches w s m
    × (((w.output_exists i m ≡ true) × Reaches w m u)
        ⊎ ((n : S) × (w.run_build i m ≡ ok n) × Reaches w n u))

module _ {Image S : Type 0} (w : Work Image S) (a : Args) (is_root : Bool) where
  -- Behind the removals, which come first for all images, and up to the end.
  abbrev pub AllMade : List Image → S → S → Type 0
  AllMade images s u =
      (t : S) × (clean_all w a is_root images s ≡ ok t) × All (λ i. Made w i t u) images
