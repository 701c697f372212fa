-- ===== src/Tests/Files.antt =====
-- Runs of `parse_ini`, and its theorems at a concrete file.
use mkosi.Base.{String, ◌≡◌, refl, true, false, List, ◌∷◌, [], All, all, not}
use mkosi.Base.Text.{Text, lit, text_eq, remove_prefix}
use mkosi.Base.Whitespace.{is_space, strip, rstrip}
use mkosi.Base.Whitespace.Laws.{starts_with_space}
use mkosi.Base.Split.{partition, cut, split, splitlines, join}
use mkosi.Base.Dict.{contains}
use mkosi.Base.Result.{die}
use mkosi.Ini.{
  is_empty, Entry, Entries, stop, yield, raise, start, parse_ini, parse_lines, yield_all,
}
use mkosi.Ini.Dedent.{dedent}
use mkosi.Ini.Render.{IsPlain, IsContinuation, is_comment, Section, IsSection, render, entries_of}
use mkosi.Ini.RoundTrip.{parse_lines-render}
use mkosi.Ini.Filter.{IsAllowed, AllYielded, parse_ini-IsAllowed}

parse : List String → String → Entries
unfolding parse_ini dedent splitlines split join remove_prefix partition cut strip contains text_eq
parse only text = parse_ini (lit text) (texts only)
  where
    texts : List String → List Text
    texts [] = []
    texts (s ∷ ss) = lit s ∷ texts ss

entry : String → String → String → Entry
entry s k v = record { section = lit s; setting = lit k; value = lit v }

abbrev file : String
file = "[Match]\nRelease=9 # stream\n\n[Content]\nPackages=a\n  b\nAutologin =yes\n"

reads :
    parse [] file
    ≡ yield (entry "Match" "Release" "9") (
        yield (entry "Match" "" "") (
          yield
            (entry "Content" "Packages" "a\nb")
            (yield (entry "Content" "Autologin" "yes") stop)))
unfolding parse entry
reads = refl

filters :
    parse ("Match" ∷ []) file
    ≡ yield (entry "Match" "Release" "9") (yield (entry "Match" "" "") stop)
unfolding parse entry
filters = refl

rejects :
    parse [] "[A]\nx=1\ny\n"
    ≡ yield (entry "A" "x" "1") (raise (die (lit "must be followed by '='")))
unfolding parse entry
rejects = refl

abbrev content : Section
content = record {
  name = lit "Content";
  assignments = record { key = lit "Packages"; first = lit "a"; more = lit "b" ∷ [] } ∷ [];
}

abbrev host : Section
host = record {
  name = lit "Host";
  assignments = record { key = lit "Ssh"; first = []; more = [] } ∷ [];
}

plain :
    (t : Text)
    → starts_with_space t ≡ false
    → rstrip t ≡ t
    → all (λ c. not (is_comment c)) t ≡ true
    → IsPlain t
plain t f b c = record { trimmed = record { front = f; back = b }; no_comment = c }

named : (t : Text) → IsPlain t → is_empty t ≡ false → IsContinuation t
named t p n = record { plain = p; nonempty = n }

sections-IsSection : All IsSection (content ∷ host ∷ [])
unfolding is_space rstrip
sections-IsSection = (
  record {
    name = named (lit "Content") (plain _ refl refl refl) refl;
    assignments = (
      record {
        key = record {
          plain = plain (lit "Packages") refl refl refl;
          nonempty = refl;
          no_bracket = refl;
          no_delimiter = refl;
        };
        first = plain (lit "a") refl refl refl;
        more = (named (lit "b") (plain _ refl refl refl) refl, tt);
      },
      tt,
    );
  },
  (
    record {
      name = named (lit "Host") (plain _ refl refl refl) refl;
      assignments = (
        record {
          key = record {
            plain = plain (lit "Ssh") refl refl refl;
            nonempty = refl;
            no_bracket = refl;
            no_delimiter = refl;
          };
          first = plain [] refl refl refl;
          more = tt;
        },
        tt,
      );
    },
    tt,
  ),
)

parse_lines-render_example :
    parse_lines [] (render (content ∷ host ∷ [])) start
    ≡ yield_all (entries_of (content ∷ host ∷ [])) stop
parse_lines-render_example = parse_lines-render content (host ∷ []) sections-IsSection

parse_ini-IsAllowed_example :
    AllYielded (IsAllowed (lit "Match" ∷ [])) (parse_ini (lit file) (lit "Match" ∷ []))
parse_ini-IsAllowed_example = parse_ini-IsAllowed (lit file) (lit "Match" ∷ [])
