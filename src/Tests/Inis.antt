-- ===== src/Tests/Inis.antt =====
-- A simple configuration file for the tests, whose sections and keys stand on their own.
use standalone_dhcp.Prelude.{
  ℕ, zero, suc, Bool, true, false, ◌&&◌, ◌||◌, Option, none, some, List, [], ◌∷◌, ◌++◌,
  if◌then◌else◌,
}
use standalone_dhcp.Net.{bytes_equal}
use standalone_dhcp.Convert.{Bytes}
use standalone_dhcp.Texts.{text_bytes}
use standalone_dhcp.Ini.{Ini}

-- Texts are put behind one another, each number raised by one and with a 0 at the end of each.
unfoldable pub put_text : Bytes → Bytes → Bytes
put_text [] rest = 0 ∷ rest
put_text (c ∷ cs) rest = suc c ∷ put_text cs rest

unfoldable pub put_texts : List Bytes → Bytes
put_texts [] = []
put_texts (s ∷ rest) = put_text s (put_texts rest)

abbrev pub onto_first : ℕ → List Bytes → List Bytes
onto_first c [] = (c ∷ []) ∷ []
onto_first c (s ∷ rest) = (c ∷ s) ∷ rest

unfoldable pub get_texts : Bytes → List Bytes
get_texts [] = []
get_texts (zero ∷ rest) = [] ∷ get_texts rest
get_texts (suc c ∷ rest) = onto_first c (get_texts rest)

abbrev mem_bytes : Bytes → List Bytes → Bool
mem_bytes s [] = false
mem_bytes s (t ∷ rest) = bytes_equal t s || mem_bytes s rest

-- A file has the names of its sections, and values by section and key.
pub record ListFile : Type 0 where
  pub names : List Bytes
  pub entries : List (Bytes × Bytes × Bytes)

unfoldable pub find_value : Bytes → Bytes → List (Bytes × Bytes × Bytes) → Bytes
find_value s k [] = []
find_value s k ((t, j, v) ∷ rest) =
    if bytes_equal t s && bytes_equal j k then v else find_value s k rest

abbrev flat : List (Bytes × Bytes × Bytes) → List Bytes
flat [] = []
flat ((s, k, v) ∷ rest) = s ∷ k ∷ v ∷ flat rest

abbrev grouped : List Bytes → List (Bytes × Bytes × Bytes)
grouped (s ∷ k ∷ v ∷ rest) = (s, k, v) ∷ grouped rest
grouped _ = []

abbrev pub write_file : ListFile → Bytes
write_file f = put_texts (put_texts f.names ∷ put_texts (flat f.entries) ∷ [])

abbrev file_of : List Bytes → Option ListFile
file_of (a ∷ b ∷ []) = some (record { names = get_texts a; entries = grouped (get_texts b) })
file_of _ = none

abbrev pub read_file : Bytes → Option ListFile
read_file text = file_of (get_texts text)

-- A file in memory, on which no call fails.
abbrev pub list_ini : Ini
list_ini = record {
  File = ListFile;
  empty = record {
    names = (b'D' ∷ b'E' ∷ b'F' ∷ b'A' ∷ b'U' ∷ b'L' ∷ b'T' ∷ []) ∷ [];
    entries = [];
  };
  section_strings = λ f. f.names;
  value = λ f s k. find_value s (text_bytes k) f.entries;
  new_section =
      λ f s. some (record f { names = if mem_bytes s f.names then f.names else f.names ++ s ∷ [] });
  set_value = λ f s k v. record f { entries = (s, text_bytes k, v) ∷ f.entries };
  save = λ f disk. (true, write_file f);
  load = read_file;
}
