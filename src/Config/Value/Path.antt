-- ===== src/Config/Value/Path.antt =====
-- `parse_path`: a path is its text, and the operations of `os` and `pathlib` are a parameter.
use Prim.Native.Nat.{bit_and}
use mkosi.Base.{
  ℕ, ◌≡◌, refl, Bool, true, false, not, ◌&&◌, Option, none, some, List, ◌==◌, if◌then◌else◌, arith,
}
use mkosi.Base.Text.{Text, lit}
use mkosi.Base.Dict.{contains}
use mkosi.Base.Result.{Error, Result, ok, failed, die}

-- The keyword arguments.
pub record PathOptions : Type 0 where
  pub required : Bool
  pub resolve : Bool
  pub expanduser : Bool
  pub expandvars : Bool
  pub secret : Bool
  pub absolute : Bool
  pub constants : List Text

pub record Os : Type 0 where
  -- `os.path.expandvars(value)`, `path.expanduser()` and `path.resolve()`
  pub expandvars : Text → Text
  pub expanduser : Text → Text
  pub resolve : Text → Text
  -- `path.relative_to("~")`, if it is relative to that
  pub relative_to_home : Text → Option Text
  -- `INVOKING_USER.is_running_user()`, and `INVOKING_USER.home() / path`
  pub is_running_user : Bool
  pub in_home : Text → Text
  pub exists : Text → Bool
  pub is_absolute : Text → Bool
  -- `path.stat().st_mode & 0o777`
  pub mode : Text → ℕ

passed {ℓ} :
    {A : Type ℓ} (a b : Bool) (d e : Error) {q : Result A} {r : A}
    → (if a then failed d else if b then failed e else q) ≡ ok r
    → (a ≡ false) × (b ≡ false) × (q ≡ ok r)
passed true b d e h = cc h
passed false true d e h = cc h
passed false false d e h = (refl, refl, h)

module _ (os : Os) (o : PathOptions) where
  abbrev in_invoking_home : Text → Option Text → Text
  in_invoking_home path none = path
  in_invoking_home path (some rest) = if os.is_running_user then path else os.in_home rest

  -- The text behind the expansions.
  unfoldable pub expanded : Text → Text
  expanded value =
      let path = if o.expandvars then os.expandvars value else value in
      if o.expanduser
      then os.expanduser (in_invoking_home path (os.relative_to_home path))
      else path

  abbrev resolved : Text → Text
  resolved path = if o.resolve then os.resolve path else path

  unfoldable pub check_mode : Text → Result Text
  check_mode path =
      if o.secret && os.exists path && not (bit_and (os.mode path) 7 == 0)
      then failed (die (lit "Permissions are too open."))
      else ok path

  unfoldable pub parse_path : Text → Result Text
  unfolding expanded check_mode contains
  parse_path value =
      if contains o.constants value
      then ok value
      else let path = expanded value in
        if o.required && not (os.exists path)
        then failed (die (lit "does not exist"))
        else if o.absolute && not (os.is_absolute path)
        then failed (die (lit "must be an absolute path"))
        else check_mode (resolved path)

  -- What the options ask of an accepted path.
  pub record IsAccepted (value path : Text) : Type 0 where
    pub is_resolved : path ≡ (if o.resolve then os.resolve (expanded value) else expanded value)
    pub there : o.required ≡ true → os.exists (expanded value) ≡ true
    pub whole : o.absolute ≡ true → os.is_absolute (expanded value) ≡ true
    pub private : o.secret ≡ true → os.exists path ≡ true → bit_and (os.mode path) 7 ≡ 0

  check_mode_ok :
      (path r : Text)
      → check_mode path ≡ ok r
      → (r ≡ path) × (o.secret ≡ true → os.exists path ≡ true → bit_and (os.mode path) 7 ≡ 0)
  unfolding check_mode
  check_mode_ok path r h = (ground (arith, h), λ s e. ground (arith, h, s, e))

  -- An accepted path is one of the constants, or the expanded and resolved text: it exists if that is
  -- required, is absolute if that is, and others have no access to a secret that exists.
  pub parse_path-IsAccepted :
      (value path : Text)
      → parse_path value ≡ ok path
      → contains o.constants value ≡ false
      → IsAccepted value path
  unfolding parse_path
  parse_path-IsAccepted value path h n =
      let p =
        passed (o.required && not (os.exists (expanded value)))
          (o.absolute && not (os.is_absolute (expanded value))) (die (lit "does not exist"))
          (die (lit "must be an absolute path")) (rw (n, parse_path) at h) in
      let c = check_mode_ok (resolved (expanded value)) path p.2 in
      record {
        is_resolved = c.0;
        there = λ r. ground (arith, p.0, r);
        whole = λ a. ground (arith, p.1, a);
        private = λ s e. rw c.0 (c.1 s (rw c.0 at e));
      }
