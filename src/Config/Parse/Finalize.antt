-- ===== src/Config/Parse/Finalize.antt =====
-- What `finalize_default` makes of assignments to a setting and to its default.
use mkosi.Base.{◌≡◌, refl, sym, true, false, Option, none, some, List, [], ◌∷◌, length}
use mkosi.Base.Text.{Text, lit, text_eq}
use mkosi.Base.Dict.{lookup, insert, lookup-insert, lookup-insert_self}
use mkosi.Base.Result.{ok}
use mkosi.Config.Setting.{Setting}
use mkosi.Config.Parse.{
  Values, FileSystem, State, Calls, Namespace, attribute, has_attribute, set_namespace,
  set_defaults,
}
use mkosi.Config.Parse.Defaults.{
  drop, includes, parse_includes, parse_new_includes, finalize_default, finalize_each, default_of,
}
use mkosi.Config.Parse.Expand.{escape, expand_specifiers-escape}
use mkosi.Config.Parse.File.{assign}

pub drop-length {ℓ} : {A : Type ℓ} (xs : List A) → drop (length xs) xs ≡ []
unfolding drop
drop-length [] = refl
drop-length (x ∷ xs) = drop-length xs

module _ {V : Type 0} (dest : Text) (ns : Namespace V) where
  absent_attribute :
      lookup dest ns ≡ none → (attribute dest ns ≡ none) × (has_attribute dest ns ≡ false)
  unfolding attribute has_attribute
  absent_attribute h = (rw h refl, rw (h, has_attribute) refl)

  pub inserted_attribute :
      (v : Option V)
      → (attribute dest (insert dest v ns) ≡ v) × (has_attribute dest (insert dest v ns) ≡ true)
  unfolding attribute has_attribute
  inserted_attribute v = (
    rw (lookup-insert_self dest v ns) refl,
    rw (lookup-insert_self dest v ns, has_attribute) refl,
  )

module _ {V : Type 0} (values : Values V) (fs : FileSystem) (calls : Calls V) (cwd : Text) where
  -- No new include is there.
  pub nothing_new :
      (s : State V)
      → parse_new_includes values fs calls cwd (length (includes values fs s)) s ≡ ok s
  unfolding parse_new_includes parse_includes
  nothing_new s = rw (drop-length (includes values fs s)) refl

  -- Another attribute has no includes.
  includes-set :
      (dest : Text) (v : Option V) (s : State V)
      → text_eq dest (lit "include") ≡ false
      → includes values fs (set_namespace dest v s) ≡ includes values fs s
  unfolding includes attribute
  includes-set dest v s h = rw (lookup-insert dest (lit "include") v s.namespace, h) refl

  pub set_and_include :
      (dest : Text) (v : Option V) (s : State V)
      → text_eq dest (lit "include") ≡ false
      → parse_new_includes values fs calls cwd
          (length (includes values fs s))
          (set_namespace dest v s)
        ≡ ok (set_namespace dest v s)
  set_and_include dest v s h =
      rw (sym (includes-set dest v s h)) (nothing_new (set_namespace dest v s))

  module _ (t : Setting) (text : Text) (not_include : text_eq t.dest (lit "include") ≡ false) where
    -- An assignment of a text whose "%" are doubled, to a setting other than `Include`, stores the
    -- value that its parser makes of the text and the old value, if it makes one, and
    -- `finalize_default` then returns that value, whatever the default is.
    pub assign-finalize_default :
        (s : State V) (w : V)
        → values.parse cwd t.parse (some text) (attribute t.dest s.namespace) ≡ ok (some w)
        → (assign values fs calls cwd t false (escape text) s
            ≡ ok (set_namespace t.dest (some w) s))
          × (finalize_default values fs calls cwd t (set_namespace t.dest (some w) s)
              ≡ ok (some w, set_namespace t.dest (some w) s))
    unfolding assign finalize_default
    assign-finalize_default s w h = (
      rw (expand_specifiers-escape values fs calls cwd text s, h)
          (set_and_include t.dest (some w) s not_include),
      rw ((inserted_attribute t.dest s.namespace (some w)).0) refl,
    )

    -- An assignment with "@" of a text whose "%" are doubled gives the default: a setting other than
    -- `Include` that was not assigned, and whose default depends on none that is not finalized, is
    -- then finalized to what its parser makes of the text and the old default.
    pub assign-default :
        (s : State V) (w : Option V)
        → values.parse cwd t.parse (some text) (attribute t.dest s.defaults) ≡ ok w
        → lookup t.dest s.namespace ≡ none
        → finalize_each values fs calls cwd t.default_factory_depends (set_defaults t.dest w s)
          ≡ ok (set_defaults t.dest w s)
        → (assign values fs calls cwd t true (escape text) s ≡ ok (set_defaults t.dest w s))
          × (finalize_default values fs calls cwd t (set_defaults t.dest w s)
              ≡ ok (w, set_namespace t.dest w (set_defaults t.dest w s)))
    unfolding assign finalize_default default_of
    assign-default s w h absent d = (
      rw (expand_specifiers-escape values fs calls cwd text s, h)
          (nothing_new (set_defaults t.dest w s)),
      rw
          (
            (absent_attribute t.dest s.namespace absent).0,
            d,
            (absent_attribute t.dest s.namespace absent).1,
            (inserted_attribute t.dest s.defaults w).1,
            (inserted_attribute t.dest s.defaults w).0,
            set_and_include t.dest w (set_defaults t.dest w s) not_include,
          )
          refl,
    )

    -- An assignment, to a setting other than `Include`, of a text whose "%" are doubled and which its
    -- parser makes no value of, keeps the default that is given with "@" from being used.
    pub assign-reset :
        (s : State V) (w : Option V)
        → values.parse cwd t.parse (some text) (attribute t.dest s.namespace) ≡ ok none
        → (assign values fs calls cwd t false (escape text) s ≡ ok (set_namespace t.dest none s))
          × (default_of values fs calls cwd t (set_namespace t.dest none s)
              ≡ default_of values fs calls cwd t
                  (set_defaults t.dest w (set_namespace t.dest none s)))
    unfolding assign default_of
    assign-reset s w h = (
      rw (expand_specifiers-escape values fs calls cwd text s, h)
          (set_and_include t.dest none s not_include),
      rw ((inserted_attribute t.dest s.namespace none).1) refl,
    )
