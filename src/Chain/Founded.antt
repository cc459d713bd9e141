-- ===== src/Chain/Founded.antt =====
-- The chain that `Genesis::found` starts.
use hansa.Prelude.{ℕ, ◌≡◌, refl, Bool, some, [], ◌∷◌}
use hansa.Prelude.Bytes.{Bytes, eq_bytes_refl}
use hansa.Error.{ok}
use hansa.Sign.{Crypto, IsSound, public, verify-sign, from_skipper}
use hansa.Genesis.{Genesis, found, verify_for}
use hansa.Chain.{Link, genesis_link, root, replay_links, replay, finish, zero_hash}
use hansa.Chain.Steps.{from_genesis}
use hansa.Chain.Collapse.{id_of, IsOwned}

module _ (c : Crypto) (sound : IsSound c) (seed : Bytes) (dim created : ℕ) (rotation : Bool) where
  abbrev pub founded : Genesis
  founded = (found c seed dim created rotation).0

  abbrev pub founded_link : Link
  founded_link = genesis_link c founded (found c seed dim created rotation).1

  found-verifies : verify_for c founded (id_of c seed) (found c seed dim created rotation).1 ≡ ok tt
  unfolding found verify_for
  found-verifies = rw (eq_bytes_refl (from_skipper c (public c seed)), verify-sign c sound seed)

  pub replay-founded :
      replay c (founded_link ∷ []) (some (id_of c seed))
      ≡ ok (finish (from_genesis c founded founded_link))
  unfolding replay root replay_links genesis_link
  replay-founded = rw (eq_bytes_refl zero_hash, eq_bytes_refl founded.skipper_pub, found-verifies)

  pub founded-IsOwned :
      IsOwned c seed (founded_link ∷ []) (finish (from_genesis c founded founded_link))
  unfolding found finish
  founded-IsOwned = record { replays = replay-founded; skipper = refl }
