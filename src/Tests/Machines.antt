-- ===== src/Tests/Machines.antt =====
-- Manifests, partitions and virtual machines.
use mkosi.Base.{
  Bool, ℕ, ◌≤◌, ◌<◌, ◌≡◌, ◌≢◌, refl, ◌⊎◌, true, false, Option, some, none, List, ◌∷◌, [], ◌++◌,
  ◌==◌, arith,
}
use mkosi.Base.Text.{Text, lit, text_eq, text_eq_iff}
use mkosi.Base.Result.{ok}
use mkosi.Config.Enums.{PackageType}
use mkosi.Config.Value.Number.{pos, negsuc}
use mkosi.Qemu.{find_hashed, find_unused_vsock_cid, find_unused_vsock_cid_bounds}
use mkosi.Partition.{Partition, finalize_roothash, root_argument, finalize_roothash-first}
use mkosi.Manifest.{PackageManifest, Manifest, Surroundings, empty_manifest, record_packages}
use mkosi.Manifest.Sources.{weigh, weigh_sources, record_packages-SameWeight}
use mkosi.Nevra.{evr_and_arch, evr_and_arch-nevra}

-- Where 3 is in use, the fifth hash has the first number that is not.
abbrev in_use : ℕ → Bool
in_use cid = cid == 3

abbrev before : List ℕ → List ℕ → List ℕ
before hash bytes = bytes ++ hash

found_cid : find_unused_vsock_cid (λ hash. hash) before in_use (0 ∷ 0 ∷ 0 ∷ 0 ∷ []) (λ j. 7) ≡ ok 4
unfolding find_unused_vsock_cid
found_cid = refl

find_unused_vsock_cid_bounds_example :
    (in_use 4 ≡ false)
    × (4 < 0xFFFFFFFF)
    × ((find_hashed (λ hash. hash) before in_use 64 0 (0 ∷ 0 ∷ 0 ∷ 0 ∷ []) ≡ none) ⊎ (3 ≤ 4))
find_unused_vsock_cid_bounds_example =
    find_unused_vsock_cid_bounds (λ hash. hash) before in_use (0 ∷ 0 ∷ 0 ∷ 0 ∷ []) (λ j. 7) 4
      (λ j. omega arith) found_cid

abbrev partition : Text → Option Text → Partition
partition type hash = record {
  type = type;
  uuid = lit "1-2";
  partno = none;
  split_path = none;
  roothash = hash;
}

abbrev partitions : List Partition
partitions =
    partition (lit "esp") none
    ∷ partition (lit "usr-x86-64") (some (lit "aa"))
    ∷ partition (lit "root-x86-64") (some (lit "bb"))
    ∷ partition (lit "root-x86-64-verity") (some (lit "cc"))
    ∷ []

found_hash : finalize_roothash partitions ≡ ok (some (lit "roothash=bb"))
unfolding finalize_roothash
found_hash = refl

finalize_roothash-first_example : some (lit "roothash=bb") ≡ root_argument partitions
finalize_roothash-first_example =
    finalize_roothash-first partitions (some (lit "roothash=bb")) found_hash

abbrev surroundings : Surroundings
surroundings = record {
  is_before_init = λ time. ok false;
  has_base_trees = false;
  need_source_info = true;
  changelog = λ name. ok (lit "- Fixed");
}

abbrev printed : List Text
printed =
    lit "bash-0:5.2-1.fc39.x86_64\tbash-5.2-1.src.rpm\tbash\tx86_64\t100\t1700000000"
    ∷ lit "bash-doc-0:5.2-1.fc39.noarch\tbash-5.2-1.src.rpm\tbash-doc\tnoarch\t20\t1700000000"
    ∷ []

abbrev size_of : PackageManifest → ℕ
size_of p = elim p.size [ pos n ↦ n | negsuc n ↦ 0 ]

abbrev bash : PackageManifest
bash = record {
  type = lit "rpm";
  name = lit "bash";
  version = lit "0:5.2-1.fc39";
  architecture = lit "x86_64";
  size = pos 100;
}

abbrev bash_doc : PackageManifest
bash_doc = record {
  type = lit "rpm";
  name = lit "bash-doc";
  version = lit "0:5.2-1.fc39";
  architecture = lit "noarch";
  size = pos 20;
}

abbrev recorded : Manifest
recorded = record {
  packages = bash ∷ bash_doc ∷ [];
  source_packages =
      (
        lit "bash-5.2-1.src.rpm",
        record {
          name = lit "bash-5.2-1.src.rpm";
          changelog = some (lit "- Fixed");
          packages = bash ∷ bash_doc ∷ [];
        },
      )
      ∷ [];
}

recorded_lines :
    record_packages surroundings PackageType.rpm printed [] empty_manifest ≡ ok recorded
unfolding record_packages
recorded_lines = refl

record_packages-SameWeight_example :
    weigh size_of recorded.packages ≡ weigh_sources size_of recorded.source_packages
record_packages-SameWeight_example =
    record_packages-SameWeight surroundings PackageType.rpm printed [] recorded refl recorded_lines
      size_of

is_named : lit "noarch" ≢ lit "(none)"
unfolding text_eq
is_named h = cc ((text_eq_iff (lit "noarch") (lit "(none)")).1 h)

evr_and_arch-nevra_example :
    evr_and_arch
      ((lit "bash-doc" ++ lit "-") ++ (lit "0:5.2-1.fc39" ++ b'.' ∷ lit "noarch"))
      (lit "bash-doc")
      (lit "noarch")
    ≡ ok (lit "0:5.2-1.fc39", lit "noarch")
evr_and_arch-nevra_example =
    evr_and_arch-nevra (lit "bash-doc") (lit "0:5.2-1.fc39") (lit "noarch") is_named
