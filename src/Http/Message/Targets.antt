-- ===== src/Http/Message/Targets.antt =====
-- The target of a request, from its path and its query.
use async_net.Base.{ℕ, List, [], ◌∷◌, ◌++◌, true, false, ◌≡◌, refl, ap, arith, is_empty}
use async_net.Base.{none}
use async_net.Http.Text.{split_at_byte}
use async_net.Http.Text.Searching.{lacks, split_at_byte-append}
use async_net.Http.Message.{Request, set_target}

-- The path, and the query behind a '?' if there is one.
unfoldable pub target_text : List ℕ → List ℕ → List ℕ
target_text path [] = path
target_text path (c ∷ query) = path ++ (b'?' ∷ c ∷ query)

pub split_at_byte-lacks : (b : ℕ) (s : List ℕ) → lacks b s ≡ true → split_at_byte b s ≡ none
unfolding split_at_byte lacks
split_at_byte-lacks b [] h = refl
split_at_byte-lacks b (c ∷ s) h = ground (arith, split_at_byte-lacks b s)

-- The target is cut into the path and the query, of a request that had no query.
pub set_target-target_text :
    (req : Request) (path query : List ℕ)
    → req.query ≡ []
    → is_empty path ≡ false
    → lacks b'?' path ≡ true
    → set_target req (target_text path query) ≡ record req { path = path; query = query }
unfolding set_target target_text
set_target-target_text req path [] q ne h =
    rw (split_at_byte-lacks b'?' path h, set_target)
      (rw ne (ap (λ (old : List ℕ). record req { path = path; query = old }) q))
set_target-target_text req path (c ∷ query) q ne h =
    rw (split_at_byte-append b'?' path (c ∷ query) h, set_target) (rw ne refl)

pub is_empty-target_text :
    (path query : List ℕ) → is_empty path ≡ false → is_empty (target_text path query) ≡ false
unfolding target_text
is_empty-target_text path [] h = h
is_empty-target_text [] (c ∷ query) h = cc
is_empty-target_text (x ∷ path) (c ∷ query) h = refl

-- A request as its sender is given it: what is to be its query is in its path.
abbrev pub to_send : Request → Request
to_send req = record req { path = target_text req.path req.query }
