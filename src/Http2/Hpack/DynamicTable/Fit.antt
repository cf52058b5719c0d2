-- ===== src/Http2/Hpack/DynamicTable/Fit.antt =====
-- What a table of bounded size keeps: the newest entries that fit, as RFC 7541, section 4.4 says.
use async_net.Base.{ℕ, suc, ◌+◌, ◌-◌, ◌≤◌, ◌<◌, ◌≡◌, refl, ap, arith, List, [], ◌∷◌, ltb}
use async_net.Base.{if◌then◌else◌, length, pop_back, back_or}
use async_net.Http2.Hpack.Entry.{Entry}

-- The size of an entry as a number: the lengths and an overhead of 32.
abbrev pub weight : Entry → ℕ
weight e = length e.name + length e.value + 32

abbrev pub total : List Entry → ℕ
total [] = 0
total (e ∷ es) = weight e + total es

-- The longest run of newest entries whose sizes add up to at most `limit`.
unfoldable pub fit : ℕ → List Entry → List Entry
fit limit [] = []
fit limit (e ∷ es) = if ltb limit (weight e) then [] else e ∷ fit (limit - weight e) es

pub fit_all : (limit : ℕ) (es : List Entry) → total es ≤ limit → fit limit es ≡ es
unfolding fit
fit_all limit [] h = refl
fit_all limit (e ∷ es) h = ground (arith, fit_all (limit - weight e) es)

pub total-fit : (limit : ℕ) (es : List Entry) → total (fit limit es) ≤ limit
unfolding fit
total-fit limit [] = omega arith
total-fit limit (e ∷ es) = ground (arith, total-fit (limit - weight e) es)

-- Entries that do not fit all lose their last and oldest.
pub fit-pop_back :
    (limit : ℕ) (es : List Entry) → limit < total es → fit limit es ≡ fit limit (pop_back es)
unfolding fit
fit-pop_back limit [] h = absurd (omega arith)
fit-pop_back limit (e ∷ []) h = ground arith
fit-pop_back limit (e ∷ e' ∷ es) h = ground (arith, fit-pop_back (limit - weight e) (e' ∷ es))

pub total-pop_back :
    (d e : Entry) (es : List Entry)
    → total (pop_back (e ∷ es)) + weight (back_or d (e ∷ es)) ≡ total (e ∷ es)
total-pop_back d e [] = omega arith
total-pop_back d e (e' ∷ es) = omega (arith, total-pop_back e e' es)

pub length-pop_back : (e : Entry) (es : List Entry) → length (pop_back (e ∷ es)) ≡ length es
length-pop_back e [] = refl
length-pop_back e (e' ∷ es) = ap suc (length-pop_back e' es)

pub fit_none : (es : List Entry) → fit 0 es ≡ []
unfolding fit
fit_none [] = refl
fit_none (e ∷ es) = ground arith
