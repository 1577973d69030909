-- ===== src/Util/Validation.antt =====
-- util/validation.ts: the names of classes and datasets. Characters are read as ASCII.
pub mod Tags
pub mod Utterances
pub mod Manifest
pub mod Dataset
pub mod Loading
pub mod Device
pub mod Placeholders
mod Tests
use genie_cloud.Base.{
  ℕ, suc, ◌+◌, Bool, true, false, not, ◌&&◌, ◌||◌, List, [], ◌∷◌, ◌++◌, Option, none, some, Text,
  codes, if◌then◌else◌, ◌==◌, ltb, leb, text_eq, has_text, starts_with, to_lower, map, length, drop,
  split, get_elem?, any_of, all_of, bit_and, Result, ok, err,
}
use genie_cloud.Util.User.{Row, is_letter, is_digit, has_file_extension, ends_with}
use genie_cloud.Util.Tokenize.{split_camel, replace_char}

abbrev pub forbidden_names : List Text
forbidden_names =
    codes "__count__"
    ∷ codes "__noSuchMethod__"
    ∷ codes "__parent__"
    ∷ codes "__proto__"
    ∷ codes "constructor"
    ∷ codes "__defineGetter__"
    ∷ codes "__defineSetter__"
    ∷ codes "__lookupGetter__"
    ∷ codes "__lookupSetter__"
    ∷ codes "eval"
    ∷ codes "hasOwnProperty"
    ∷ codes "isPrototypeOf"
    ∷ codes "propertyIsEnumerable"
    ∷ codes "toLocaleString"
    ∷ codes "toSource"
    ∷ codes "toString"
    ∷ codes "valueOf"
    ∷ []

pub data TagError : Type 0 where
  invalid_id unsafe_keyword too_long no_period reserved : TagError

-- `/^([A-Za-z_][A-Za-z0-9_.-]*)$/`
unfoldable pub is_tag : Text → Bool
is_tag [] = false
is_tag (c ∷ s) =
    (is_letter c || c == b'_')
    && all_of (λ d. is_letter d || is_digit d || d == b'_' || d == b'.' || d == b'-') s

-- `/^[-0-9]/`
abbrev pub starts_badly : Text → Bool
starts_badly [] = true
starts_badly (c ∷ s) = c == b'-' || is_digit c

-- The loop over the parts: what is wrong with the first bad one.
unfoldable pub check_parts : List Text → Option TagError
check_parts [] = none
check_parts (part ∷ parts) =
    let rest = check_parts parts in
    if starts_badly part || ends_with (codes "-") part
    then some invalid_id
    else if has_text forbidden_names part
    then some unsafe_keyword
    else rest

abbrev pub part_is : List Text → ℕ → Text → Bool
part_is parts i name = elim (get_elem? parts i) [ none ↦ false | some part ↦ text_eq part name ]

-- The naming conventions, for who has not got the admin role.
unfoldable pub check_convention : List Text → Row → Option TagError
check_convention parts user =
    if leb (length parts) 1
    then some no_period
    else if (elim user.developer_org [ none ↦ false | some org ↦ org == 1 ])
    then none
    else if part_is parts 0 (codes "org") && part_is parts 1 (codes "thingpedia")
    then if part_is parts 2 (codes "test")
        || part_is parts 2 (codes "builtin") && part_is parts 3 (codes "test")
      then none
      else some reserved
    else none

abbrev pub has_admin_role : Option ℕ → Row → Bool
has_admin_role none user = false
has_admin_role (some role) user = bit_and user.roles role == role

-- `validateTag`: nothing, or the error that it throws.
unfoldable pub validate_tag : Text → Row → Option ℕ → Option TagError
unfolding is_tag check_parts check_convention
validate_tag tag user admin_role =
    if not (is_tag tag)
    then some invalid_id
    else if has_file_extension tag
    then some invalid_id
    else elim (check_parts (split b'.' tag)) [
      | some e ↦ some e
      | none ↦
          if ltb 128 (length tag)
          then some too_long
          else if has_admin_role admin_role user
          then none
          else check_convention (split b'.' tag) user
    ]

-- `if (kind.startsWith(prefix)) kind = kind.substr(prefix.length)`
abbrev pub without : Text → Text → Text
without prefix kind = if starts_with prefix kind then drop (length prefix) kind else kind

abbrev pub kind_prefixes : List Text
kind_prefixes =
    codes "org.thingpedia.builtin.thingengine."
    ∷ codes "org.thingpedia.builtin."
    ∷ codes "org.thingpedia."
    ∷ codes "com."
    ∷ codes "gov."
    ∷ codes "org."
    ∷ codes "uk.co."
    ∷ []

abbrev pub without_all : List Text → Text → Text
without_all [] kind = kind
without_all (p ∷ ps) kind = without_all ps (without p kind)

unfoldable pub clean_kind : Text → Text
clean_kind kind = map to_lower (
    split_camel (
      replace_char (λ c. c == b'_' || c == b'-' || c == b'.') b' '
        (without_all kind_prefixes kind)))
