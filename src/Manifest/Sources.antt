-- ===== src/Manifest/Sources.antt =====
-- The source packages of a manifest: which packages they hold.
use mkosi.Base.{
  ℕ, ◌+◌, ◌≡◌, refl, sym, inl, inr, Bool, true, false, ◌&&◌, Option, none, some, List, [], ◌∷◌,
  ◌++◌, Bool-cases, Option-cases, arith,
}
use mkosi.Base.Text.{Text, lit, text_eq}
use mkosi.Base.Split.{split}
use mkosi.Base.Dict.{Dict, lookup, insert}
use mkosi.Base.Result.Post.{Post, returns, Post-ok, bind-Post, own-Post, map-Post}
use mkosi.Base.Result.{Result, ok, Result-cases, ◌>>=◌}
use mkosi.Config.Value.Number.{pos, int}
use mkosi.Config.Enums.{PackageType}
use mkosi.Manifest.{
  PackageManifest, SourcePackageManifest, add, Manifest, empty_manifest, add_source, record_package,
  Surroundings, Fields, six_fields, record_rpm, record_deb, record_lines, record_rpm_packages,
  record_deb_packages, record_pkg_packages, record_packages, parse_pkg_desc, evr_and_arch,
  int_or_raise, int_or_0, times_1024, printed_changelog, unpack,
}

module _ (weight : PackageManifest → ℕ) where
  abbrev pub weigh : List PackageManifest → ℕ
  weigh [] = 0
  weigh (p ∷ ps) = weight p + weigh ps

  abbrev pub weigh_sources : Dict SourcePackageManifest → ℕ
  weigh_sources [] = 0
  weigh_sources ((k, s) ∷ d) = weigh s.packages + weigh_sources d

  weigh-append :
      (ps : List PackageManifest) (p : PackageManifest) → weigh (ps ++ p ∷ []) ≡ weigh ps + weight p
  weigh-append [] p = omega arith
  weigh-append (q ∷ ps) p = ground (arith, weigh-append ps p)

  weigh_sources-insert_new :
      (k : Text) (s : SourcePackageManifest) (d : Dict SourcePackageManifest)
      → lookup k d ≡ none
      → weigh_sources (insert k s d) ≡ weigh_sources d + weigh s.packages
  unfolding lookup insert
  weigh_sources-insert_new k s [] h = omega arith
  weigh_sources-insert_new k s ((j, v) ∷ d) h = elim (Bool-cases (text_eq j k)) [
    | inl e ↦ cc (rw e at h)
    | inr e ↦ rw e (let q = weigh_sources-insert_new k s d (rw e at h) in omega arith)
  ]

  weigh_sources-insert-add :
      (k : Text) (p : PackageManifest) (s : SourcePackageManifest) (d : Dict SourcePackageManifest)
      → lookup k d ≡ some s
      → weigh_sources (insert k (add p s) d) ≡ weigh_sources d + weight p
  unfolding lookup insert
  weigh_sources-insert-add k p s [] h = cc h
  weigh_sources-insert-add k p s ((j, v) ∷ d) h = elim (Bool-cases (text_eq j k)) [
    | inl e ↦ rw (e, value (rw e at h)) (let q = weigh-append s.packages p in omega arith)
    | inr e ↦ rw e (let q = weigh_sources-insert-add k p s d (rw e at h) in omega arith)
  ]
    where
      value : {B : Type 0} {x y : B} → some x ≡ some y → x ≡ y
      value q = cc q

  weigh_sources-add_source :
      (k : Text) (changelog : Result (Option Text)) (p : PackageManifest)
      (d e : Dict SourcePackageManifest)
      → add_source k changelog p d ≡ ok e
      → weigh_sources e ≡ weigh_sources d + weight p
  unfolding add_source
  weigh_sources-add_source k changelog p d e h = elim (Option-cases (lookup k d)) [
    | inl f ↦ elim (Result-cases changelog) [
      | inl (t, g) ↦ cc (rw g at (rw (f, add_source) at h))
      | inr (t, g) ↦ rw (sym (value (rw g at (rw (f, add_source) at h)))) (
          let q =
            weigh_sources-insert_new k (add p (record { name = k; changelog = t; packages = [] })) d
              f in
          omega arith)
    ]
    | inr (s, f) ↦ rw (sym (value (rw (f, add_source) at h))) (weigh_sources-insert-add k p s d f)
  ]
    where
      value : {B : Type 0} {x y : B} → ok x ≡ ok y → x ≡ y
      value q = cc q

  abbrev pub SameWeight : Manifest → Type 0
  SameWeight m = weigh m.packages ≡ weigh_sources m.source_packages

  record_package-SameWeight :
      (is_old : Bool) (k : Text) (changelog : Result (Option Text)) (p : PackageManifest)
      (m n : Manifest)
      → SameWeight m
      → record_package is_old true k changelog p m ≡ ok n
      → SameWeight n
  unfolding record_package
  record_package-SameWeight true k changelog p m n s h = rw (sym (value h)) s
    where
      value : {x y : Manifest} → ok x ≡ ok y → x ≡ y
      value q = cc q
  record_package-SameWeight false k changelog p m n s h =
      elim (Result-cases (add_source k changelog p m.source_packages)) [
        | inl (t, g) ↦ cc (rw g at h)
        | inr (d, g) ↦ rw (sym (value (rw g at h))) (
            let q = weigh_sources-add_source k changelog p m.source_packages d g in
            let r = weigh-append m.packages p in omega arith)
      ]
    where
      value : {x y : Manifest} → ok x ≡ ok y → x ≡ y
      value q = cc q

  record_package-Post :
      (is_old need : Bool) (k : Text) (changelog : Result (Option Text)) (p : PackageManifest)
      (m : Manifest)
      → need ≡ true
      → SameWeight m
      → Post SameWeight (record_package is_old need k changelog p m)
  record_package-Post is_old false k changelog p m e s = cc e
  record_package-Post is_old true k changelog p m e s =
      map-Post (λ n e. record_package-SameWeight is_old k changelog p m n s e)
        (own-Post (record_package is_old true k changelog p m))

  behind :
      {T : Type 0} (r : Result T) {f : T → Result Manifest}
      → ((t : T) → Post SameWeight (f t))
      → Post SameWeight (r >>= f)
  behind r k = bind-Post (own-Post r) (λ t _. k t)

  record_rpm-Post :
      (w : Surroundings) (fields : Fields) (m : Manifest)
      → w.need_source_info ≡ true
      → SameWeight m
      → Post SameWeight (record_rpm w fields m)
  unfolding record_rpm
  record_rpm-Post w (six_fields nevra srpm name arch size installtime) m need s =
      behind (evr_and_arch nevra name arch) (λ v. behind (int_or_raise (int size)) (λ bytes.
        behind (int_or_raise (int installtime)) (λ time.
          behind (w.is_before_init time) (λ is_before.
            record_package-Post (w.has_base_trees && is_before) w.need_source_info srpm
              (printed_changelog w nevra)
              (record {
                type = lit "rpm";
                name = name;
                version = v.0;
                architecture = v.1;
                size = bytes;
              })
              m need s))))

  record_deb-Post :
      (w : Surroundings) (fields : Fields) (m : Manifest)
      → w.need_source_info ≡ true
      → SameWeight m
      → Post SameWeight (record_deb w fields m)
  unfolding record_deb
  record_deb-Post w (six_fields name source version arch size installtime) m need s =
      behind (int_or_0 size) (λ kilobytes. behind (int_or_0 installtime) (λ time.
        behind (w.is_before_init time) (λ is_before.
          record_package-Post (w.has_base_trees && is_before) w.need_source_info source
            (printed_changelog w name)
            (record {
              type = lit "deb";
              name = name;
              version = version;
              architecture = arch;
              size = times_1024 kilobytes;
            })
            m need s)))

  record_lines-Post :
      (step : Fields → Manifest → Result Manifest) (ls : List Text) (m : Manifest)
      → ((f : Fields) (n : Manifest) → SameWeight n → Post SameWeight (step f n))
      → SameWeight m
      → Post SameWeight (record_lines step ls m)
  unfolding record_lines
  record_lines-Post step [] m k s = returns s
  record_lines-Post step (l ∷ ls) m k s =
      behind (unpack (split b'\t' l))
        (λ f. bind-Post (k f m s) (λ n t. record_lines-Post step ls n k t))

  record_pkg_packages-Post :
      (fs : List (List Text)) (m : Manifest)
      → SameWeight m
      → Post SameWeight (record_pkg_packages fs m)
  unfolding record_pkg_packages
  record_pkg_packages-Post [] m s = returns s
  record_pkg_packages-Post (f ∷ fs) m s = behind (parse_pkg_desc f) (λ d.
      bind-Post
        (record_package-Post false true d.base (ok none)
          (record {
            type = lit "pkg";
            name = d.name;
            version = d.version;
            architecture = d.arch;
            size = pos 0;
          })
          m refl s)
        (λ n t. record_pkg_packages-Post fs n t))

  recorded-SameWeight :
      (w : Surroundings) (type : PackageType) (printed : List Text) (descs : List (List Text))
      (m : Manifest)
      → w.need_source_info ≡ true
      → record_packages w type printed descs empty_manifest ≡ ok m
      → SameWeight m
  unfolding record_packages record_rpm_packages record_deb_packages
  recorded-SameWeight w PackageType.none printed descs m need h =
      Post-ok SameWeight (returns refl) h
  recorded-SameWeight w PackageType.ebuild printed descs m need h =
      Post-ok SameWeight (returns refl) h
  recorded-SameWeight w PackageType.rpm printed descs m need h =
      Post-ok SameWeight
        (record_lines-Post (record_rpm w) printed empty_manifest
          (λ f n s. record_rpm-Post w f n need s) refl)
        h
  recorded-SameWeight w PackageType.deb printed descs m need h =
      Post-ok SameWeight
        (record_lines-Post (record_deb w) printed empty_manifest
          (λ f n s. record_deb-Post w f n need s) refl)
        h
  recorded-SameWeight w PackageType.pkg printed descs m need h =
      Post-ok SameWeight (record_pkg_packages-Post descs empty_manifest refl) h

-- Where the changelogs are asked for, the packages that a recorded manifest lists and those below its
-- source packages have the same weight, however packages are weighed: by their sizes, or one package
-- by 1 and the others by 0. So each package stands below a source package as often as in the list.
pub record_packages-SameWeight :
    (w : Surroundings) (type : PackageType) (printed : List Text) (descs : List (List Text))
    (m : Manifest)
    → w.need_source_info ≡ true
    → record_packages w type printed descs empty_manifest ≡ ok m
    → (weight : PackageManifest → ℕ)
    → weigh weight m.packages ≡ weigh_sources weight m.source_packages
record_packages-SameWeight w type printed descs m need h weight =
    recorded-SameWeight weight w type printed descs m need h
