-- ===== src/Directory/Host.antt =====
-- A host resource of the directory, with the fields that the gateway reads.
use jump_host.Base.{
  ℕ, Bool, false, ◌&&◌, Option, none, some, List, leb, if◌then◌else◌, ◌==◌, nat_eq, text_eq, length,
  Text,
}

-- A value that may be absent, a Boolean or a text, as `metadata.managed` may.
pub data Setting : Type 0 where
  absent : Setting
  flag : Bool → Setting
  word : Text → Setting

-- An absent field is `none`. `ssh_port` is `Number(md.sshPort)`, with `none` for NaN.
pub record Metadata : Type 0 where
  pub ip : Option Text
  pub address : Option Text
  pub ssh_port : Option ℕ
  pub ssh_host_key_fp : Option Text
  pub managed : Setting
  pub discovery_sources : List Text

-- A resource without metadata is one whose metadata fields are all absent.
pub record Host : Type 0 where
  pub kind : Text
  pub slug : Option Text
  pub name : Option Text
  pub metadata : Metadata

-- What the gateway takes from JavaScript and Node on texts: `toLowerCase`, and the host name of
-- `new URL(…)`, `none` where the constructor throws.
pub record Platform : Type 0 where
  pub lower : Text → Text
  pub url_hostname : Text → Option Text

-- `v && test(v)`: an absent text and the empty text are falsy.
abbrev pub truthy_and : Option Text → (Text → Bool) → Bool
truthy_and none test = false
truthy_and (some v) test = leb 1 (length v) && test v

-- `v === t` at a value that may be absent.
abbrev pub equals : Option Text → Text → Bool
equals none t = false
equals (some v) t = v == t

-- `a || b` at texts that may be absent.
abbrev pub or_else : Option Text → Option Text → Option Text
or_else none b = b
or_else (some v) b = if leb 1 (length v) then some v else b
