-- ===== src/Fixers/TextFile.antt =====
-- src/cli/util/text_files.rs: whether a file is text, and its content. `std::str::from_utf8` is a
-- parameter: of any bytes it says that they are UTF-8, that they are not, or that a character at
-- their end is cut off, and where it starts.
use hk.Prelude.{
  ℕ, ◌-◌, Bool, true, false, ◌||◌, [], ◌∷◌, ◌++◌, Bytes, min, length, take, drop, contains_byte,
  ltb, leb, if◌then◌else◌,
}

pub data Utf8 : Type 0 where
  valid : Utf8
  invalid : Utf8  -- `error_len` is some
  cut_off : (valid_up_to : ℕ) → Utf8

-- `Result<Option<String>>`: the failure, no text file, or a text.
pub data Read : Type 0 where
  failed : Read
  not_text : Read
  text : Bytes → Read

-- The width of the character that starts with `tail[0]`.
abbrev width_of : Bytes → ℕ
width_of [] = 2
width_of (c ∷ tail) = if leb 0xF0 c then 4 else if leb 0xE0 c then 3 else 2

abbrev pub probe_bytes : ℕ
probe_bytes = 8192

module _ (from_utf8 : Bytes → Utf8) where
  is_valid : Bytes → Bool
  is_valid s = elim (from_utf8 s) [ valid ↦ true | _ ↦ false ]

  -- A character cut off by the probe counts if the bytes right after the probe complete it.
  completed : (content head : Bytes) → ℕ → Bool
  unfolding is_valid
  completed content head valid_up_to =
      let tail = drop valid_up_to head in
      let missing = width_of tail - length tail in
      if leb (length content) (length head) || ltb (length content - length head) missing
      then false
      else is_valid (tail ++ take missing (drop (length head) content))

  -- `read_text_probe`: whether the file is text.
  unfoldable pub read_text_probe : Bytes → Bool
  unfolding completed contains_byte
  read_text_probe content =
      let head = take (min probe_bytes (length content)) content in
      if contains_byte head 0 then false else elim (from_utf8 head) [
        | valid ↦ true
        | invalid ↦ false
        | cut_off n ↦ completed content head n
      ]

  -- `read_rest_to_string`, which decodes all of the content.
  unfoldable pub read_rest_to_string : Bytes → Read
  unfolding is_valid
  read_rest_to_string content = if is_valid content then text content else failed
