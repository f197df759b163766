-- ===== src/Grammar/Defs.antt =====
-- nodejs/utils/username_grammar.js: the tests and the parser.
use jump_host.Base.{
  ℕ, ◌+◌, Bool, false, ◌&&◌, ◌||◌, Option, none, some, List, [], ◌∷◌, leb, if◌then◌else◌, ◌==◌,
  nat_eq, text_eq, Result, ok, ◌>>◌, require, length, take, drop, all, Text, text, is_digit,
  is_lower, is_upper, split, index_of,
}
use jump_host.Base.Decimal.{value}

abbrev pub sep : Text
sep = text "_-_"

-- UID_RE, TARGET_RE (with its flag `i`) and IPV4_RE. A class is a test on one character.
abbrev pub uid_start : ℕ → Bool
uid_start c = is_lower c || c == b'_'

abbrev pub uid_char : ℕ → Bool
uid_char c = is_lower c || is_digit c || c == b'.' || c == b'_' || c == b'-'

unfoldable pub is_uid : Text → Bool
is_uid [] = false
is_uid (c ∷ s) = uid_start c && leb (length s) 31 && all uid_char s

abbrev pub target_start : ℕ → Bool
target_start c = is_lower c || is_upper c || is_digit c

abbrev pub target_char : ℕ → Bool
target_char c = target_start c || c == b'.' || c == b'_' || c == b'-'

unfoldable pub is_target_name : Text → Bool
is_target_name [] = false
is_target_name (c ∷ s) = target_start c && leb (length s) 127 && all target_char s

-- `\d{1,3}`
abbrev pub is_octet_text : Text → Bool
is_octet_text s = leb 1 (length s) && leb (length s) 3 && all is_digit s

-- The groups of IPV4_RE. A digit is no dot, so the groups are the parts between the dots.
unfoldable pub exec_ipv4 : Text → Option (List Text)
exec_ipv4 s =
    let parts = split b'.' s in
    if length parts == 4 && all is_octet_text parts then some parts else none

unfoldable pub is_ipv4 : Text → Bool
unfolding exec_ipv4
is_ipv4 s = elim (exec_ipv4 s) [ none ↦ false | some m ↦ all (λ o. leb (value o) 255) m ]

pub data GrammarError : Type 0 where
  empty_username : GrammarError
  invalid_username invalid_uid invalid_target : Text → GrammarError

pub record Parsed : Type 0 where
  pub uid : Text
  pub target : Option Text

abbrev pub valid_target : Text → Bool
valid_target t = leb 1 (length t) && (is_target_name t || is_ipv4 t)

-- The part after `indexOf`: no separator, or one at the index.
unfoldable pub parse_at : Text → Option ℕ → Result GrammarError Parsed
parse_at s none = do require (is_uid s) (invalid_username s); ok (record { uid = s; target = none })
parse_at s (some idx) = do
  let uid = take idx s
  let target = drop (idx + 3) s
  require (is_uid uid) (invalid_uid uid)
  require (valid_target target) (invalid_target target)
  ok (record { uid = uid; target = some target })

unfoldable pub parse_username : Text → Result GrammarError Parsed
unfolding parse_at
parse_username s = do require (leb 1 (length s)) empty_username; parse_at s (index_of s sep)
