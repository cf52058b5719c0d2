-- ===== src/Http2/Hpack/DynamicTable.antt =====
-- `class hpack_dynamic_table` of src/http/hpack.cpp. The front of `entries` is the newest.
pub mod Fit
pub mod Inv
use async_net.Base.{ℕ, zero, suc, ◌+◌, ◌-◌, ◌%◌, ◌^◌, List, [], ◌∷◌, Bool, true, false, ◌&&◌, not}
use async_net.Base.{Option, none, some, ltb, ◌==◌, ◌||◌, if◌then◌else◌, length, get_elem?, is_empty}
use async_net.Base.{pop_back, back_or}
use async_net.Http2.Hpack.Entry.{Entry, entry, find_from}

-- `size_t` addition and subtraction.
abbrev pub add_size : ℕ → ℕ → ℕ
add_size a b = (a + b) % 2 ^ 64

abbrev pub sub_size : ℕ → ℕ → ℕ
sub_size a b = (a + 2 ^ 64 - b) % 2 ^ 64

abbrev pub entry_size : Entry → ℕ
entry_size e = add_size (add_size (length e.name) (length e.value)) 32

pub record Table : Type 0 where
  pub max_size : ℕ
  pub current_size : ℕ
  pub entries : List Entry

abbrev pub new_table : ℕ → Table
new_table max_size = record { max_size = max_size; current_size = 0; entries = [] }

unfoldable pub evict : Table → Table
evict t = if is_empty t.entries then t else record t {
  current_size = sub_size t.current_size (entry_size (back_or (entry [] []) t.entries));
  entries = pop_back t.entries;
}

-- `while (test && !entries_.empty()) evict();`, on fuel: a round takes an entry out.
unfoldable pub evict_while : ℕ → (Table → Bool) → Table → Table
unfolding evict
evict_while zero test t = t
evict_while (suc fuel) test t =
    let rest = evict_while fuel test (evict t) in
    if test t && not (is_empty t.entries) then rest else t

unfoldable pub add : Table → List ℕ → List ℕ → Table
unfolding evict_while
add t name value =
    let size = entry_size (entry name value) in
    let t' =
      evict_while (length t.entries) (λ s. ltb s.max_size (add_size s.current_size size)) t in
    if ltb t'.max_size size then t' else record t' {
      entries = entry name value ∷ t'.entries;
      current_size = add_size t'.current_size size;
    }

unfoldable pub resize : Table → ℕ → Table
unfolding evict_while
resize t new_max_size =
    evict_while (length t.entries) (λ s. ltb s.max_size s.current_size)
      (record t { max_size = new_max_size })

-- The index counts from 1.
unfoldable pub get : Table → ℕ → Option Entry
get t index =
    if index == 0 || ltb (length t.entries) index then none else get_elem? t.entries (index - 1)

unfoldable pub find : Table → List ℕ → List ℕ → ℕ × Bool
unfolding find_from
find t name value = find_from 1 0 name value t.entries
