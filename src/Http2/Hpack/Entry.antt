-- ===== src/Http2/Hpack/Entry.antt =====
-- `struct hpack_entry` of src/http/hpack.hpp, and how a table is searched.
use async_net.Base.{ℕ, ◌+◌, List, [], ◌∷◌, Bool, true, false, ◌==◌, if◌then◌else◌, bytes_eq}

pub record Entry : Type 0 where
  pub name : List ℕ
  pub value : List ℕ

abbrev pub entry : List ℕ → List ℕ → Entry
entry name value = record { name = name; value = value }

-- The loop of `hpack_find_static` and of `hpack_dynamic_table::find`: `i` is the index that is
-- reported for the first entry, and `name_match` that of the first entry with this name so far.
unfoldable pub find_from : ℕ → ℕ → List ℕ → List ℕ → List Entry → ℕ × Bool
unfolding bytes_eq
find_from i name_match name value [] = (name_match, false)
find_from i name_match name value (e ∷ es) =
    let on_name = find_from (i + 1) (if name_match == 0 then i else name_match) name value es in
    let on_other = find_from (i + 1) name_match name value es in
    if bytes_eq e.name name
    then (if bytes_eq e.value value then (i, true) else on_name)
    else on_other
