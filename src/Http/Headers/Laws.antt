-- ===== src/Http/Headers/Laws.antt =====
-- What `headers` promises: each operation touches the fields of one name, in any case, and no other.
use async_net.Base.{
  List, [], ◌∷◌, ◌++◌, ℕ, Bool, true, false, Option, none, some, ◌≡◌, refl, arith, ap,
}
use async_net.Base.{
  bytes_eq, bytes_eq_iff, bytes_eq_refl, if◌then◌else◌, append-nil, ◌∙◌, Bool-cases, inl, inr,
}
use async_net.Http.Text.{to_lower}
use async_net.Http2.Hpack.Entry.{entry}
use async_net.Http.Headers.{
  Headers, has_name, remove_named, append, set, remove, first_named, get, all_named, get_all,
}

all_named-append :
    (lower : List ℕ) (xs ys : Headers)
    → all_named lower (xs ++ ys) ≡ all_named lower xs ++ all_named lower ys
unfolding all_named
all_named-append lower [] ys = refl
all_named-append lower (e ∷ xs) ys = elim (Bool-cases (has_name lower e)) [
  | inl h ↦ rw h (rw (all_named-append lower xs ys))
  | inr h ↦ rw h (all_named-append lower xs ys)
]

all_named-remove_named :
    (lower other : List ℕ) (hs : Headers)
    → all_named other (remove_named lower hs)
      ≡ (if bytes_eq lower other then [] else all_named other hs)
unfolding all_named remove_named has_name
all_named-remove_named lower other [] = ground arith
all_named-remove_named lower other (e ∷ hs) = ground (
  arith,
  all_named-remove_named lower other hs,
  bytes_eq_iff (to_lower e.name) lower,
  bytes_eq_iff (to_lower e.name) other,
  bytes_eq_iff lower other,
)

-- After `set` a name has the new value alone, and every other name has the values that it had.
pub get_all-set :
    (hs : Headers) (name value other : List ℕ)
    → get_all (set hs name value) other
      ≡ (if bytes_eq (to_lower name) (to_lower other) then value ∷ [] else get_all hs other)
unfolding get_all set append
get_all-set hs name value other =
    all_named-append (to_lower other) (remove_named (to_lower name) hs) (entry name value ∷ [])
    ∙ only (bytes_eq (to_lower name) (to_lower other)) _ _ (all_named-remove_named _ _ hs)
  where
    only :
        (b : Bool) (old new : List (List ℕ))
        → new ≡ (if b then [] else old)
        → new ++ (if b then value ∷ [] else []) ≡ (if b then value ∷ [] else old)
    only true old new e = rw e
    only false old new e = rw e (append-nil old)

-- After `remove` a name has no value, and every other name has the values that it had.
pub get_all-remove :
    (hs : Headers) (name other : List ℕ)
    → get_all (remove hs name) other
      ≡ (if bytes_eq (to_lower name) (to_lower other) then [] else get_all hs other)
unfolding get_all remove
get_all-remove hs name other = all_named-remove_named (to_lower name) (to_lower other) hs

abbrev pub first {ℓ} : {A : Type ℓ} → List A → Option A
first [] = none
first (x ∷ xs) = some x

first_named-all_named :
    (lower : List ℕ) (hs : Headers) → first_named lower hs ≡ first (all_named lower hs)
unfolding first_named all_named
first_named-all_named lower [] = refl
first_named-all_named lower (e ∷ hs) = ground (arith, first_named-all_named lower hs)

-- `get` is the first of the values that `get_all` returns.
pub get-get_all : (hs : Headers) (name : List ℕ) → get hs name ≡ first (get_all hs name)
unfolding get get_all
get-get_all hs name = first_named-all_named (to_lower name) hs

pub get-set_self : (hs : Headers) (name value : List ℕ) → get (set hs name value) name ≡ some value
get-set_self hs name value =
    get-get_all (set hs name value) name
    ∙ ap first (get_all-set hs name value name)
    ∙ rw (bytes_eq_refl (to_lower name))
