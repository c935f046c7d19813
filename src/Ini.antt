-- ===== src/Ini.antt =====
-- The library go-ini, which reads and writes the configuration file. It is not in this repository: a
-- record of the calls that config.go and api.go make of it. Nothing is asked of what they answer.
use standalone_dhcp.Prelude.{Bool, Option, String, List}
use standalone_dhcp.Convert.{Bytes}

-- A section is named by a text, and so is a key in it; a key that is not there has the empty text.
-- `value f s k` is `f.Section(s).Key(k).String()`, and `set_value` is `Section(s).Key(k).SetValue`.
-- `save` is `SaveTo` over a text of the file: whether it succeeds, and the text that the file then has.
-- `load` reads such a text.
pub record Ini : Type 1 where
  pub File : Type 0
  pub empty : File
  pub section_strings : File → List Bytes
  pub value : File → Bytes → String → Bytes
  pub new_section : File → Bytes → Option File
  pub set_value : File → Bytes → String → Bytes → File
  pub save : File → Bytes → Bool × Bytes
  pub load : Bytes → Option File
