-- ===== src/GitIndex/Tests.antt =====
-- src/git_index.rs: an index with two entries.
use hk.Prelude.{ℕ, some, ◌≡◌, refl, List, [], ◌∷◌, ◌++◌, codes, Bytes, replicate, contains_byte}
use hk.GitIndex.{refused, value, decode_varint, signature, racily_clean_paths, be_number}
use hk.GitIndex.Entries.{Entry}
use hk.GitIndex.NoPanic.{Safe, Any, racily_clean_paths-Safe}
use hk.GitIndex.Printed.{printed_entries, racy_paths, racily_clean_paths-printed}

-- Fixed fields with the second of writing, the size and the length of the path.
abbrev fixed_fields : ℕ → ℕ → ℕ → Bytes
fixed_fields mtime size len =
    replicate 11 0 ++ (mtime ∷ replicate 27 0 ++ (size ∷ replicate 21 0 ++ (len ∷ [])))

abbrev entries : List Entry
entries =
    record { fixed = fixed_fields 9 5 1; path = codes "a" }
    ∷ record { fixed = fixed_fields 3 5 2; path = codes "bc" }
    ∷ []

abbrev version_bytes : Bytes
version_bytes = 0 ∷ 0 ∷ 0 ∷ 2 ∷ []

abbrev index : Bytes
index =
    signature ++ (version_bytes ++ (version_bytes ++ (printed_entries entries ++ replicate 20 7)))

two_byte_varint : decode_varint (128 ∷ 0 ∷ 5 ∷ []) ≡ some (128, 2)
unfolding decode_varint
two_byte_varint = refl

not_an_index : racily_clean_paths (codes "DIRC") 0 ≡ refused
unfolding racily_clean_paths
not_an_index = refl

one_entry_racy : racy_paths 9 entries ≡ codes "a" ∷ []
unfolding racy_paths be_number
one_entry_racy = refl

racily_clean_paths-Safe_example : Safe Any (racily_clean_paths index 9)
racily_clean_paths-Safe_example = racily_clean_paths-Safe index 9

racily_clean_paths-printed_example : racily_clean_paths index 9 ≡ value (racy_paths 9 entries)
unfolding be_number contains_byte
racily_clean_paths-printed_example =
    racily_clean_paths-printed version_bytes version_bytes (replicate 20 7) entries 9 refl refl refl
      refl refl
      (
        record { whole = refl; plain = refl; counted = refl; no_nul = refl },
        (record { whole = refl; plain = refl; counted = refl; no_nul = refl }, tt),
      )
