-- ===== src/Config/Parse/Main/Complete.antt =====
-- Every setting has an attribute in a namespace whose defaults are finalized.
use mkosi.Base.{
  ℕ, zero, suc, ◌≡◌, refl, inl, inr, Bool, true, false, Option, none, some, List, [], ◌∷◌, length,
  All, Bool-cases, Option-cases,
}
use mkosi.Base.Text.{Text, lit, text_eq}
use mkosi.Base.Dict.{lookup, insert, lookup-insert, lookup-insert_self}
use mkosi.Base.Result.Post.{Post, raises, returns, bind-Post, own-Post, map-Post, both-Post}
use mkosi.Config.Setting.{Setting}
use mkosi.Config.Parse.{
  Values, FileSystem, State, Calls, Namespace, attribute, has_attribute, set_namespace,
}
use mkosi.Config.Parse.Defaults.{
  includes, finalize_each, default_of, finalize_absent, finalize_default,
}
use mkosi.Config.Parse.File.{set_attribute, calls_within}
use mkosi.Config.Parse.Respects.{Respects, CallsKeep, parse_new_includes-Post}
use mkosi.Config.Parse.Induction.{calls_within-CallsKeep}
use mkosi.Config.Parse.Known.{
  IsKnown, found_by_dest, found_by_name, found_by_specifier, table_known,
}
use mkosi.Config.Parse.Main.{Directory, finalize_defaults}

module _ {V : Type 0} where
  -- An attribute that is there stays there.
  abbrev pub Extends : State V → State V → Type 0
  Extends s u = (d : Text) → has_attribute d s.namespace ≡ true → has_attribute d u.namespace ≡ true

  insert-has_attribute :
      (k d : Text) (v : Option V) (ns : Namespace V)
      → has_attribute d ns ≡ true
      → has_attribute d (insert k v ns) ≡ true
  unfolding has_attribute
  insert-has_attribute k d v ns h = elim (Bool-cases (text_eq k d)) [
    | inl e ↦ rw (has_attribute, lookup-insert, e) refl
    | inr e ↦ rw (has_attribute, lookup-insert, e) h
  ]

  has_attribute-insert :
      (d : Text) (v : Option V) (ns : Namespace V) → has_attribute d (insert d v ns) ≡ true
  unfolding has_attribute
  has_attribute-insert d v ns = rw (has_attribute, lookup-insert_self d v ns) refl

  attribute-has_attribute :
      (d : Text) (v : V) (ns : Namespace V) → attribute d ns ≡ some v → has_attribute d ns ≡ true
  unfolding attribute has_attribute
  attribute-has_attribute d v ns e = elim (Option-cases (lookup d ns)) [
    | inl q ↦ cc (rw q at e)
    | inr (w, q) ↦ rw (has_attribute, q) refl
  ]

  module _ (values : Values V) (fs : FileSystem) where
    set_attribute-Extends :
        (calls : Calls V) (cwd : Text) (b : Bool) (d : Text) (v : Option V) (s : State V)
        → Extends s (set_attribute values fs calls cwd b d v s)
    set_attribute-Extends calls cwd true d v s = λ k h. h
    set_attribute-Extends calls cwd false d v s = λ k h. insert-has_attribute d k v s.namespace h

    pub extends : Respects values fs IsKnown Extends
    extends = record {
      refl_R = λ s d h. h;
      trans_R = λ s t u f g d h. g d (f d h);
      by_dest = found_by_dest IsKnown table_known;
      by_name = found_by_name IsKnown table_known;
      by_specifier = found_by_specifier IsKnown table_known;
      in_table = table_known;
      on_default = λ calls cwd t s v m e d h. insert-has_attribute t.dest d v s.namespace h;
      on_assign = λ calls cwd t b text s v m e. set_attribute-Extends calls cwd b t.dest v s;
      on_include = λ i s d h. h;
      on_freeze = λ s d h. h;
      on_profile = λ s v e d h. insert-has_attribute (lit "profile") d (some v) s.namespace h;
    }

    module _ (calls : Calls V) (k : CallsKeep values fs extends calls) (cwd : Text) where
      absent_has :
          (t : Setting) (s : State V) (o : Option V)
          → attribute t.dest s.namespace ≡ o
          → Post
              (λ r. has_attribute t.dest r.1.namespace ≡ true)
              (finalize_absent values fs calls cwd t s o)
      absent_has t s (some v) e = returns (attribute-has_attribute t.dest v s.namespace e)
      absent_has t s none e =
          bind-Post (own-Post (finalize_each values fs calls cwd t.default_factory_depends s))
            λ u _. bind-Post (own-Post (default_of values fs calls cwd t u)) λ v _.
              bind-Post
                (parse_new_includes-Post values fs extends calls k cwd
                  (length (includes values fs u)) (set_namespace t.dest v u))
                λ w n. returns (n t.dest (has_attribute-insert t.dest v u.namespace))

      finalize_default-has :
          (t : Setting) (s : State V)
          → Post
              (λ r. has_attribute t.dest r.1.namespace ≡ true)
              (finalize_default values fs calls cwd t s)
      unfolding finalize_default
      finalize_default-has t s = absent_has t s (attribute t.dest s.namespace) refl

    calls_within-has :
        (depth : ℕ) (cwd : Text) (t : Setting) (s : State V)
        → Post
            (λ r. has_attribute t.dest r.1.namespace ≡ true)
            ((calls_within values fs depth).finalize_default cwd t s)
    unfolding calls_within
    calls_within-has zero cwd t s = raises
    calls_within-has (suc n) cwd t s =
        finalize_default-has (calls_within values fs n) (calls_within-CallsKeep values fs extends n)
          cwd t s

    -- A namespace that has an attribute for each of the settings.
    abbrev pub HasEach : List Setting → State V → Type 0
    HasEach ts u = All (λ t. has_attribute t.dest u.namespace ≡ true) ts

    module _ (depth : ℕ) (dir : Directory V) (cwd : Text) where
      -- `finalize_defaults` adds no attribute twice, and leaves none out.
      pub finalize_defaults-HasEach :
          (ts : List Setting) (s : State V)
          → All IsKnown ts
          → Post
              (λ u. Extends s u × HasEach ts u)
              (finalize_defaults values fs (calls_within values fs depth) dir cwd ts s)
      unfolding finalize_defaults
      finalize_defaults-HasEach [] s h = returns ((λ d e. e), tt)
      finalize_defaults-HasEach (t ∷ ts) s h =
          bind-Post
            (both-Post (calls_within-has depth cwd t s)
              ((calls_within-CallsKeep values fs extends depth).keep_finalize cwd t s h.0))
            λ r q.
              map-Post (λ u m. ((λ d e. m.0 d (q.1 d e)), (m.0 t.dest q.0, m.1)))
                (finalize_defaults-HasEach ts r.1 h.1)
