-- ===== src/Http2/Hpack/Search.antt =====
-- What the table searches of src/http/hpack.cpp report.
use async_net.Base.{ℕ, suc, ◌+◌, ◌<◌, ◌≡◌, ap, ap₂, arith, List, [], ◌∷◌}
use async_net.Base.{Bool, true, Bool-cases, inl, inr, bytes_eq, bytes_eq_iff, get_elem?, length}
use async_net.Base.{some, ◌==◌, if◌then◌else◌}
use async_net.Http2.Hpack.Entry.{Entry, entry, find_from}

-- An exact match is reported with the index of an entry that has this name and this value.
pub record Found (i k : ℕ) (es : List Entry) (name value : List ℕ) : Type 0 where
  pub offset : ℕ
  pub counted : k ≡ i + offset
  pub inside : offset < length es
  pub there : get_elem? es offset ≡ some (entry name value)

pub find_from_exact :
    (i name_match : ℕ) (name value : List ℕ) (es : List Entry) (k : ℕ)
    → find_from i name_match name value es ≡ (k, true)
    → Found i k es name value
unfolding find_from
find_from_exact i nm name value [] k h = cc
find_from_exact i nm name value (e ∷ es) k h = elim (Bool-cases (bytes_eq e.name name)) [
  | inr other ↦ later (find_from_exact (i + 1) nm name value es k (rw other at h))
  | inl same ↦ elim (Bool-cases (bytes_eq e.value value)) [
    | inr differ ↦ later (
        find_from_exact (i + 1) (if nm == 0 then i else nm) name value es k
          (rw (same, differ) at h))
    | inl exact ↦ record {
      offset = 0;
      counted = omega (arith, ap (λ (p : ℕ × Bool). p.0) (rw (same, exact) at h));
      inside = omega arith;
      there =
          ap₂ (λ (n v : List ℕ). some (entry n v)) ((bytes_eq_iff e.name name).0 same)
            ((bytes_eq_iff e.value value).0 exact);
    }
  ]
]
  where
    later : Found (i + 1) k es name value → Found i k (e ∷ es) name value
    later f = record {
      offset = suc f.offset;
      counted = omega (arith, f.counted);
      inside = omega (arith, f.inside);
      there = f.there;
    }
