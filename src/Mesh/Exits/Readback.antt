-- ===== src/Mesh/Exits/Readback.antt =====
-- nodejs/services/exit_router.js: the policy rules read back from `ip -o rule show`.
use jump_host.Base.{
  ℕ, ◌+◌, Bool, not, ◌&&◌, ◌||◌, Option, none, some, List, [], ◌∷◌, ◌++◌, ltb, leb, if◌then◌else◌,
  ◌==◌, nat_eq, text_eq, length, drop, all, Text, text, is_digit, split, starts_with,
}
use jump_host.Base.Decimal.{value}
use jump_host.Grammar.Defs.{is_octet_text}
use jump_host.Mesh.Exits.{rule_priority_base}

-- `\s` and `\S`, over the characters that the output holds.
abbrev pub is_space : ℕ → Bool
is_space c = c == 32 || leb 9 c && leb c 13 || c == 160

-- The longest prefix of characters that pass, and the rest.
unfoldable pub span : (ℕ → Bool) → Text → Text × Text
span p [] = ([], [])
span p (c ∷ s) = if p c then (let (front, rest) = span p s in (c ∷ front, rest)) else ([], c ∷ s)

-- One or more characters of the class.
unfoldable pub some_of : (ℕ → Bool) → Text → Option (Text × Text)
some_of p s =
    let (front, rest) = span p s in if leb 1 (length front) then some (front, rest) else none

-- The fixed text, at the front.
unfoldable pub literal : Text → Text → Option Text
literal p s = if starts_with s p then some (drop (length p) s) else none

infixl 5 ◌>>?◌
abbrev pub ◌>>?◌ : {A B : Type 0} → Option A → (A → Option B) → Option B
none >>? f = none
some a >>? f = f a

pub record Installed : Type 0 where
  pub priority : ℕ
  pub from : Text
  pub table : Text

-- `/^(\d+):\s+from\s+(\S+)\s+lookup\s+(\S+)/`. Each class is cut off by the character that follows it,
-- so the longest match is the only one.
unfoldable pub exec_rule : Text → Option (Text × Text × Text)
exec_rule line = some_of is_digit line >>? λ (priority, s). literal (text ":") s >>? λ s.
    some_of is_space s >>? λ (_, s). literal (text "from") s >>? λ s.
    some_of is_space s >>? λ (_, s). some_of (λ c. not (is_space c)) s >>? λ (from, s).
    some_of is_space s >>? λ (_, s). literal (text "lookup") s >>? λ s.
    some_of is_space s >>? λ (_, s).
    some_of (λ c. not (is_space c)) s >>? λ (table, _). some (priority, from, table)

-- `/^\d{1,3}(\.\d{1,3}){3}$/`
abbrev pub is_address : Text → Bool
is_address s = let parts = split b'.' s in length parts == 4 && all is_octet_text parts

abbrev pub in_managed_range : ℕ → Bool
in_managed_range priority =
    not (ltb priority rule_priority_base || ltb (rule_priority_base + 254) priority)

-- The body of the loop of `listManagedRules` over the (trimmed) lines.
unfoldable pub read_rule : Text → List Installed
read_rule line = elim (exec_rule line) [
  | none ↦ []
  | some (p, from, table) ↦
      if in_managed_range (value p)
      then record {
        priority = value p;
        from = if is_address from then from ++ text "/32" else from;
        table = table;
      }
        ∷ []
      else []
]

unfoldable pub list_managed_rules : List Text → List Installed
list_managed_rules [] = []
list_managed_rules (line ∷ lines) = read_rule line ++ list_managed_rules lines
