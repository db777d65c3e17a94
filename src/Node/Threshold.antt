-- ===== src/Node/Threshold.antt =====
-- The numbers of threshold encryption (whisper/node.py, `_get_threshold_params` and
-- `_handle_share_response`).
use whisper_network.Common.{
  ℕ, suc, ◌+◌, ◌≤◌, ◌≡◌, refl, List, [], ◌∷◌, ◌++◌, ltb, ◌==◌, arith, if◌then◌else◌,
}
use whisper_network.Common.Dict.{Dict}
use whisper_network.Runtime.Execute.{Share}
use whisper_network.Node.Shares.{ShareSlot, has_x, add_share}

-- How often a share with the number `x` stands among the shares.
abbrev pub shares_at : ℕ → List Share → ℕ
shares_at x [] = 0
shares_at x ((y, bytes) ∷ rest) = let n = shares_at x rest in if y == x then suc n else n

has_x-shares_at : (x : ℕ) (shares : List Share) → has_x x shares ≡ ltb 0 (shares_at x shares)
unfolding has_x
has_x-shares_at x [] = refl
has_x-shares_at x ((y, bytes) ∷ rest) = ground (arith, has_x-shares_at x rest)

shares_at-append :
    (x y : ℕ) (bytes : List ℕ) (shares : List Share)
    → shares_at x (shares ++ (y, bytes) ∷ []) ≡ shares_at x shares + (if y == x then 1 else 0)
shares_at-append x y bytes [] = ground arith
shares_at-append x y bytes ((z, b) ∷ rest) = ground (arith, shares_at-append x y bytes rest)

-- A share that arrives twice counts once: if each number stands at most once among the shares, it does
-- so after a response too; the number of the response stands among them then, and no share is lost.
pub add_share_once :
    (share : Share) (col : ShareSlot)
    → ((x : ℕ) → shares_at x col.shares ≤ 1)
    → ((x : ℕ) → shares_at x (add_share share col).shares ≤ 1)
      × (shares_at share.0 (add_share share col).shares ≡ 1)
      × ((x : ℕ) → shares_at x col.shares ≤ shares_at x (add_share share col).shares)
unfolding add_share
add_share_once (y, bytes) col once = (
  λ x. ground (arith, once x, has_x-shares_at y col.shares, shares_at-append x y bytes col.shares),
  ground (arith, once y, has_x-shares_at y col.shares, shares_at-append y y bytes col.shares),
  λ x. ground (arith, has_x-shares_at y col.shares, shares_at-append x y bytes col.shares),
)
