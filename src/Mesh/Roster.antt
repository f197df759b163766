-- ===== src/Mesh/Roster.antt =====
-- The documents of the directory that the mesh is planned from, with the fields that are read.
use jump_host.Base.{
  ℕ, Bool, false, Option, none, some, [], ◌∷◌, leb, if◌then◌else◌, nat_eq, text_eq, length, Text,
  text,
}

-- A device of this site. `exit_site_id` is `none` for null, undefined and the empty text.
pub record Client : Type 0 where
  pub uid : Text
  pub name : Text
  pub public_key : Option Text
  pub assigned_ip : Option Text
  pub exit_site_id : Option ℕ

-- A row of the roster. Site ids are natural numbers, as the directory allocates them.
pub record Site : Type 0 where
  pub site_id : ℕ
  pub slug : Option Text
  pub gateway_public_key : Option Text
  pub gateway_endpoint : Option Text
  pub lan168 : Option Text
  pub lan172 : Option Text

-- `v ? v : null`: the empty text is as good as none.
abbrev pub truthy : Option Text → Option Text
truthy none = none
truthy (some []) = none
truthy (some (c ∷ s)) = some (c ∷ s)

abbrev pub is_truthy : Option Text → Bool
is_truthy none = false
is_truthy (some v) = leb 1 (length v)

-- `v || other`.
abbrev pub or_text : Option Text → Text → Text
or_text none other = other
or_text (some v) other = if leb 1 (length v) then v else other

-- What `${v}` prints.
abbrev pub shown : Option Text → Text
shown none = text "undefined"
shown (some v) = v
