-- ===== src/Http2/Hpack/DynamicTable/Inv.antt =====
-- The invariant of `hpack_dynamic_table`, and that eviction keeps exactly the newest entries that
-- fit.
use async_net.Base.{ℕ, zero, suc, ◌-◌, ◌^◌, ◌≤◌, ◌<◌, ◌≡◌, refl, ap, ◌∙◌, arith}
use async_net.Base.{List, [], ◌∷◌, Bool, true, false, ltb, length, pop_back}
use async_net.Base.{Bool-cases, inl, inr, sym, ltb→lt}
use async_net.Http2.Hpack.Entry.{Entry, entry}
use async_net.Http2.Hpack.DynamicTable.{Table, entry_size, add_size, evict}
use async_net.Http2.Hpack.DynamicTable.{evict_while, add, resize}
use async_net.Http2.Hpack.DynamicTable.Fit.{weight, total, fit, fit_all, total-fit, fit-pop_back}
use async_net.Http2.Hpack.DynamicTable.Fit.{total-pop_back, length-pop_back, fit_none}

-- `current_size_` is the sum of the sizes, and no `size_t` wraps.
pub record IsCounted (t : Table) : Type 0 where
  pub counted : t.current_size ≡ total t.entries
  pub small : total t.entries < 2 ^ 64

pub record IsValid (t : Table) : Type 0 where
  pub counted : t.current_size ≡ total t.entries
  pub within : t.current_size ≤ t.max_size
  pub small : t.max_size < 2 ^ 63

abbrev keeping : Table → List Entry → Table
keeping t es = record t { current_size = total es; entries = es }

evict_lem :
    (t : Table) (e : Entry) (es : List Entry)
    → IsCounted t
    → t.entries ≡ e ∷ es
    → evict t ≡ keeping t (pop_back (e ∷ es))
unfolding evict
evict_lem t e es c h = ground (arith, total-pop_back (entry [] []) e es)

evict_while_step :
    (fuel : ℕ) (test : Table → Bool) (t : Table) (e : Entry) (es : List Entry)
    → t.entries ≡ e ∷ es
    → test t ≡ true
    → evict_while (suc fuel) test t ≡ evict_while fuel test (evict t)
unfolding evict_while
evict_while_step fuel test t e es h k = ground arith

evict_while_stop :
    (fuel : ℕ) (test : Table → Bool) (t : Table) → test t ≡ false → evict_while fuel test t ≡ t
unfolding evict_while
evict_while_stop zero test t k = refl
evict_while_stop (suc fuel) test t k = ground arith

evict_while_empty :
    (fuel : ℕ) (test : Table → Bool) (t : Table) → t.entries ≡ [] → evict_while fuel test t ≡ t
unfolding evict_while
evict_while_empty zero test t k = refl
evict_while_empty (suc fuel) test t k = ground arith

-- The loop with a test that compares the size with a limit.
evict_while-fit :
    (fuel : ℕ) (test : Table → Bool) (limit : ℕ) (t : Table) (es : List Entry)
    → IsCounted t
    → t.entries ≡ es
    → length es ≤ fuel
    → ((e : Entry) (es' : List Entry)
        → total (e ∷ es') ≤ total es
        → test (keeping t (e ∷ es')) ≡ ltb limit (total (e ∷ es')))
    → evict_while fuel test t ≡ keeping t (fit limit es)
unfolding fit
evict_while-fit fuel test limit t [] c h hf k = ground (arith, evict_while_empty fuel test t h)
evict_while-fit zero test limit t (e ∷ es) c h hf k = absurd (omega arith)
evict_while-fit (suc fuel) test limit t (e ∷ es) c h hf k =
    let same : t ≡ keeping t (e ∷ es) = ground arith in
    let asked : test t ≡ ltb limit (total (e ∷ es)) = ap test same ∙ k e es (omega arith) in
    elim (Bool-cases (ltb limit (total (e ∷ es)))) [
      | inl more ↦
          let rest =
            evict_while-fit fuel test limit (keeping t (pop_back (e ∷ es))) (pop_back (e ∷ es))
              (record {
                counted = refl;
                small = omega (arith, ap total h, total-pop_back (entry [] []) e es);
              })
              refl (omega (arith, length-pop_back e es))
              (λ e' es' le. k e' es' (omega (arith, total-pop_back (entry [] []) e es))) in
          rw (evict_while_step fuel test t e es h (asked ∙ more), evict_lem t e es c h)
            (rest ∙ ap (keeping t) (sym (fit-pop_back limit (e ∷ es) (ltb→lt _ _ more))))
      | inr fits ↦
          ground
            (arith, evict_while_stop (suc fuel) test t (asked ∙ fits), same, fit_all limit (e ∷ es))
    ]

-- What a table is after an operation: valid, of this size limit, and with these entries.
pub record Holds (t : Table) (max_size : ℕ) (es : List Entry) : Type 0 where
  pub valid : IsValid t
  pub limit : t.max_size ≡ max_size
  pub entries : t.entries ≡ es

add_evicted :
    (t : Table) (name value : List ℕ)
    → IsValid t
    → weight (entry name value) < 2 ^ 63
    → evict_while
        (length t.entries)
        (λ s. ltb s.max_size (add_size s.current_size (entry_size (entry name value))))
        t
      ≡ keeping t (fit (t.max_size - weight (entry name value)) t.entries)
add_evicted t name value v h =
    evict_while-fit (length t.entries) _ (t.max_size - weight (entry name value)) t t.entries
      (record { counted = v.counted; small = omega arith }) refl (omega arith)
      (λ e es le. ground arith)

-- `add` to a valid table keeps the newest entries that fit, the new one first: none if it is too
-- large by itself. The new one weighs less than 2^63. The table stays valid, so the reported size is
-- the sum of the entries' and within the limit.
pub add-Holds :
    (t : Table) (name value : List ℕ)
    → IsValid t
    → weight (entry name value) < 2 ^ 63
    → Holds (add t name value) t.max_size (fit t.max_size (entry name value ∷ t.entries))
unfolding add fit
add-Holds t name value v h =
    let es = fit (t.max_size - weight (entry name value)) t.entries in
    rw (add_evicted t name value v h) (
      ground
        (arith, total-fit (t.max_size - weight (entry name value)) t.entries, fit_none t.entries))

resize_evicted :
    (t : Table) (new_max_size : ℕ)
    → IsValid t
    → new_max_size < 2 ^ 63
    → evict_while
        (length t.entries)
        (λ s. ltb s.max_size s.current_size)
        (record t { max_size = new_max_size })
      ≡ keeping (record t { max_size = new_max_size }) (fit new_max_size t.entries)
resize_evicted t new_max_size v h =
    evict_while-fit (length t.entries) _ new_max_size (record t { max_size = new_max_size })
      t.entries (record { counted = v.counted; small = omega arith }) refl (omega arith)
      (λ e es le. refl)

-- `resize` of a valid table keeps the newest entries that fit the new limit, which is below 2^63.
pub resize-Holds :
    (t : Table) (new_max_size : ℕ)
    → IsValid t
    → new_max_size < 2 ^ 63
    → Holds (resize t new_max_size) new_max_size (fit new_max_size t.entries)
unfolding resize
resize-Holds t new_max_size v h =
    rw (resize_evicted t new_max_size v h) (ground (arith, total-fit new_max_size t.entries))
