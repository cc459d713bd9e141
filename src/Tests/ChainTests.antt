-- ===== src/Tests/ChainTests.antt =====
-- The theorems on chains, at the toy chain of three links.
use hansa.Prelude.{◌≡◌, refl, ◌≢◌, ◌⊎◌, none, some, List, [], ◌∷◌, map, arith, All}
use hansa.Prelude.Bytes.{eq_bytes}
use hansa.Chain.{revoke, Link, zero_hash, canonical, genesis_link}
use hansa.Chain.Table.{find_member, standing, decided}
use hansa.Chain.Encoding.{IsSized}
use hansa.Chain.Unambiguous
use hansa.Chain.Active
use hansa.Chain.Authority
use hansa.Chain.Authority.{IsPinned, IsAuthentic}
use hansa.Chain.Order
use hansa.Chain.Order.{IsAscending}
use hansa.Chain.History
use hansa.Chain.History.{content, Collision}
use hansa.Genesis
use hansa.Chain.{signed, genesis_link}
use hansa.Sign.{from_skipper, public}
use hansa.Tests.Toy.{
  toy, key, team, alice, root_link, admit_link, revoke_link, began, admitted, revoked,
}

abbrev three_links : List Link
three_links = root_link ∷ admit_link ∷ revoke_link ∷ []

replay-standing_example : find_member alice revoked.0.active ≡ standing alice three_links
replay-standing_example = Active.replay-standing toy three_links (some team) revoked.1.replays alice

-- Alice is out after her revocation, and was in before it.
alice_is_out : standing alice three_links ≡ none
unfolding decided signed genesis_link eq_bytes
alice_is_out = refl

alice_was_in : standing alice (root_link ∷ admit_link ∷ []) ≢ none
unfolding decided signed genesis_link eq_bytes
alice_was_in e = cc e

replay-IsAscending_example : IsAscending admitted.0.active
replay-IsAscending_example =
    Order.replay-IsAscending toy (root_link ∷ admit_link ∷ []) (some team) admitted.1.replays

replay-authority_example :
    IsPinned toy (some team) revoked.0.skipper × All (IsAuthentic toy revoked.0.skipper) three_links
replay-authority_example = Authority.replay-authority toy three_links (some team) revoked.1.replays

-- A link of the widths that the Rust types give.
abbrev plain_link : Link
plain_link = record {
  seq = 3;
  prev = zero_hash;
  body = revoke alice 20 none;
  signed_by = key;
  sig = [];
}

abbrev signed_link : Link
signed_link = record plain_link { sig = 1 ∷ [] }

plain_link-IsSized : IsSized plain_link
plain_link-IsSized = record {
  seq = omega arith;
  prev = refl;
  body = (refl, omega arith, tt);
  signed_by = refl;
}

signed_link-IsSized : IsSized signed_link
signed_link-IsSized = record {
  seq = omega arith;
  prev = refl;
  body = (refl, omega arith, tt);
  signed_by = refl;
}

same_bytes : canonical plain_link ≡ canonical signed_link
unfolding canonical
same_bytes = refl

canonical-unambiguous_example :
    (plain_link.seq ≡ signed_link.seq)
    × (plain_link.prev ≡ signed_link.prev)
    × (plain_link.body ≡ signed_link.body)
    × (plain_link.signed_by ≡ signed_link.signed_by)
canonical-unambiguous_example =
    Unambiguous.canonical-unambiguous plain_link signed_link plain_link-IsSized signed_link-IsSized
      same_bytes

began-IsSized : All IsSized (root_link ∷ [])
unfolding Genesis.found genesis_link from_skipper public
began-IsSized = (
  record {
    seq = omega arith;
    prev = refl;
    body = record { hansa_id = refl; skipper_pub = refl; dim = omega arith; created = omega arith };
    signed_by = refl;
  },
  tt,
)

head_hash_commits_example :
    (map content (root_link ∷ []) ≡ map content (root_link ∷ [])) ⊎ Collision toy
head_hash_commits_example =
    History.head_hash_commits toy (root_link ∷ []) (root_link ∷ []) (some team) (some team)
      began-IsSized began-IsSized began.1.replays began.1.replays refl
