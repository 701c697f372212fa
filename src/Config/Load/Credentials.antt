-- ===== src/Config/Load/Credentials.antt =====
-- The credentials of a loaded configuration: those that are given stay.
use mkosi.Base.{
  ◌≡◌, refl, sym, ◌∙◌, inl, inr, Bool, true, false, Option, none, some, [], ◌∷◌, Bool-cases, arith,
}
use mkosi.Base.Text.{Text, lit, text_eq, text_eq_iff}
use mkosi.Base.Dict.{Dict, lookup, insert, merge, contains, lookup-insert}
use mkosi.Base.Dict.Distinct.{distinct, keys}
use mkosi.Base.Result.{ok}
use mkosi.Base.Result.Post.{Post, raises, returns, Post-ok, bind-Post, if-Post, own-Post}
use mkosi.Config.Families.{needs_credentials}
use mkosi.Config.Loading.{Host, Loading, is_some, set_nonempty}
use mkosi.Config.Load.{with_timezone, with_locale, ssh_key, with_ssh_key, load_credentials}

module _ {V : Type 0} where
  lookup-contains :
      (k : Text) (v : V) (e : Dict V) → lookup k e ≡ some v → contains (keys e) k ≡ true
  unfolding lookup contains
  lookup-contains k v [] h = cc h
  lookup-contains k v ((j, w) ∷ e) h = elim (Bool-cases (text_eq j k)) [
    | inl b ↦ rw b refl
    | inr b ↦ rw b (lookup-contains k v e (rw b at h))
  ]

  lookup-merge_other :
      (k : Text) (d e : Dict V) → contains (keys e) k ≡ false → lookup k (merge d e) ≡ lookup k d
  unfolding merge contains
  lookup-merge_other k d [] h = refl
  lookup-merge_other k d ((j, w) ∷ e) h = elim (Bool-cases (text_eq j k)) [
    | inl b ↦ cc (rw b at h)
    | inr b ↦ lookup-merge_other k (insert j w d) e (rw b at h) ∙ rw (lookup-insert, b) refl
  ]

  -- The second dictionary's values win.
  lookup-merge :
      (k : Text) (v : V) (d e : Dict V)
      → distinct (keys e) ≡ true
      → lookup k e ≡ some v
      → lookup k (merge d e) ≡ some v
  unfolding merge distinct lookup
  lookup-merge k v d [] n h = cc h
  lookup-merge k v d ((j, w) ∷ e) n h = elim (Bool-cases (text_eq j k)) [
    | inl b ↦
        let q = (text_eq_iff j k).0 b in
        let missing : contains (keys e) k ≡ false = rw (sym q) (ground (arith, n)) in
        lookup-merge_other k (insert j w d) e missing ∙ rw (lookup-insert, b) (rw b at h)
    | inr b ↦ lookup-merge k v (insert j w d) e (ground (arith, n)) (rw b at h)
  ]

  -- A key that was missing does not change the others.
  lookup-insert_missing :
      (k : Text) (v : V) (j : Text) (w : V) (d : Dict V)
      → lookup j d ≡ none
      → lookup k d ≡ some v
      → lookup k (insert j w d) ≡ some v
  lookup-insert_missing k v j w d n h = elim (Bool-cases (text_eq j k)) [
    | inl b ↦ cc (n, h, (text_eq_iff j k).0 b)
    | inr b ↦ rw (lookup-insert, b) h
  ]

-- The loaded dictionary has the value.
abbrev Has : Text → Text → Dict Text → Type 0
Has k v d = lookup k d ≡ some v

is_some-none : (o : Option Text) → is_some o ≡ false → o ≡ none
is_some-none none h = refl
is_some-none (some v) h = cc h

Has-insert :
    (k v j w : Text) (d : Dict Text)
    → is_some (lookup j d) ≡ false
    → Has k v d
    → Has k v (insert j w d)
Has-insert k v j w d n h = lookup-insert_missing k v j w d (is_some-none (lookup j d) n) h

with_timezone-Has :
    (k v : Text) (host : Host) (d : Dict Text) → Has k v d → Has k v (with_timezone host d)
with_timezone-Has k v host d h = elim (Bool-cases (is_some (lookup (lit "firstboot.timezone") d))) [
  | inl b ↦ rw b h
  | inr b ↦ rw b (given host.timezone b)
]
  where
    given :
        (zone : Option Text)
        → is_some (lookup (lit "firstboot.timezone") d) ≡ false
        → Has k v (set_nonempty (lit "firstboot.timezone") zone d)
    given none b = h
    given (some []) b = h
    given (some (c ∷ s)) b = Has-insert k v (lit "firstboot.timezone") (c ∷ s) d b h

with_locale-Has : (k v : Text) (d : Dict Text) → Has k v d → Has k v (with_locale d)
with_locale-Has k v d h = elim (Bool-cases (is_some (lookup (lit "firstboot.locale") d))) [
  | inl b ↦ rw b h
  | inr b ↦ rw b (Has-insert k v (lit "firstboot.locale") (lit "C.UTF-8") d b h)
]

ssh_key-Has :
    (k v : Text) (host : Host) (ssh : Bool) (certificate : Option Text) (d : Dict Text)
    → is_some (lookup (lit "ssh.authorized_keys.root") d) ≡ false
    → Has k v d
    → Post (Has k v) (ssh_key host ssh certificate d)
ssh_key-Has k v host ssh none d n h = if-Post ssh raises (returns h)
ssh_key-Has k v host ssh (some []) d n h = if-Post ssh raises (returns h)
ssh_key-Has k v host ssh (some (c ∷ s)) d n h =
    bind-Post (own-Post (host.ssh_public_key (c ∷ s)))
      (λ key _. returns (Has-insert k v (lit "ssh.authorized_keys.root") key d n h))

with_ssh_key-Has :
    (k v : Text) (host : Host) (c : Loading) (d : Dict Text)
    → Has k v d
    → Post (Has k v) (with_ssh_key host c d)
with_ssh_key-Has k v host c d h =
    elim (Bool-cases (is_some (lookup (lit "ssh.authorized_keys.root") d))) [
      | inl b ↦ rw b (returns h)
      | inr b ↦ rw b (ssh_key-Has k v host c.ssh c.ssh_certificate d b h)
    ]

-- For a verb that needs credentials, a credential of Credentials=, whose keys are distinct, is loaded
-- with its value: no default,
-- no file in mkosi.credentials and nothing that is asked of the host takes its place.
pub load_credentials-own :
    (host : Host) (c : Loading) (k v : Text) (d : Dict Text)
    → needs_credentials c.verb ≡ true
    → distinct (keys c.credentials) ≡ true
    → lookup k c.credentials ≡ some v
    → load_credentials host c ≡ ok d
    → lookup k d ≡ some v
unfolding load_credentials
load_credentials-own host c k v d n u h e =
    Post-ok (Has k v)
      (with_ssh_key-Has k v host c _ (
        with_locale-Has k v _
          (with_timezone-Has k v host _ (lookup-merge k v _ c.credentials u h))))
      (rw n at e)
