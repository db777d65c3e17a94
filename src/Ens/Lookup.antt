-- ===== src/Ens/Lookup.antt =====
-- The lookup of a name and the discovery of peers in whisper/ens.py.
use whisper_network.Common.{
  ◌≡◌, refl, Bool, true, false, ◌||◌, Option, none, some, List, [], ◌∷◌, ◌++◌, arith,
}
use whisper_network.Text.{Text, strip, text_eq, is_blank, contains_text, text_eq_sym}
use whisper_network.Ens.{
  TextRecord, Subname, Service, or_blank, not_blank, list_subnames, has_peer_id, first_name,
  lookup_by_peer_id, peers_of, all_peers, discover_peers,
}

contains_text-++ :
    (s : Text) (xs ys : List Text)
    → contains_text s (xs ++ ys) ≡ (contains_text s xs || contains_text s ys)
contains_text-++ s [] ys = refl
contains_text-++ s (x ∷ xs) ys = ground (arith, contains_text-++ s xs ys)

not_blank-eq : (p s : Text) → is_blank p ≡ false → text_eq s p ≡ true → not_blank s ≡ true
not_blank-eq [] s filled same = absurd (ground arith)
not_blank-eq (c ∷ cs) [] filled same = absurd (ground arith)
not_blank-eq (c ∷ cs) (d ∷ ds) filled same = refl

contains_text-peers_of :
    (p : Text) (rs : List TextRecord)
    → is_blank p ≡ false
    → contains_text p (peers_of rs) ≡ has_peer_id p rs
unfolding peers_of has_peer_id
contains_text-peers_of p [] filled = refl
contains_text-peers_of p (r ∷ rs) filled = ground (
  arith,
  contains_text-peers_of p rs filled,
  text_eq_sym p (strip (or_blank r.value)),
  not_blank-eq p (strip (or_blank r.value)) filled,
)

abbrev pub is_found : Option Text → Bool
is_found none = false
is_found (some s) = true

contains_text-all_peers :
    (p : Text) (subs : List Subname)
    → is_blank p ≡ false
    → contains_text p (all_peers subs) ≡ is_found (first_name p subs)
unfolding all_peers first_name
contains_text-all_peers p [] filled = refl
contains_text-all_peers p (sub ∷ subs) filled = ground (
  arith,
  contains_text-++ p (peers_of sub.texts) (all_peers subs),
  contains_text-peers_of p sub.texts filled,
  contains_text-all_peers p subs filled,
)

-- With a key for the service, and as long as its list is the same: a peer is discovered exactly if a
-- name can be looked up for it.
pub discover_peers-lookup_by_peer_id :
    (s : Service) (api_key p : Text)
    → is_blank (strip api_key) ≡ false
    → is_blank p ≡ false
    → contains_text p (discover_peers s api_key) ≡ is_found (lookup_by_peer_id s p)
unfolding discover_peers lookup_by_peer_id
discover_peers-lookup_by_peer_id s api_key p keyed filled =
    rw keyed (contains_text-all_peers p (list_subnames s) filled)
