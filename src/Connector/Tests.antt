-- ===== src/Connector/Tests.antt =====
-- The theorems on the connector and the disconnector at a concrete manager.
use tvpp_dev_base.Base.{
  ℕ, ◌≡◌, refl, false, if◌then◌else◌, ◌==◌, none, some, List, [], ◌∷◌, arith, Option,
}
use tvpp_dev_base.Base.Int.{pos}
use tvpp_dev_base.Base.Sets.{contains}
use tvpp_dev_base.PeerData.{PeerData, make_peer, make_peer_data}
use tvpp_dev_base.PeerManager.{PeerManager, ins, active}
use tvpp_dev_base.PeerManager.Valid.{IsValid}
use tvpp_dev_base.Connector.{connect}
use tvpp_dev_base.Connector.Filled.{Gains, connect-Gains}

-- A known peer with a full TTL.
abbrev known_peer : ℕ → Option PeerData
known_peer k = some (make_peer_data (some (make_peer k k (pos 2) (pos 0) (pos 9))))

-- Two known peers, one of them in the in list, which has room for two.
abbrev two : PeerManager
two = record {
  max_in = 2;
  max_out = 2;
  max_out_free = 0;
  out_limit = 0;
  peer_list = λ k. if k == 5 then known_peer 5 else if k == 7 then known_peer 7 else none;
  active_in = 5 ∷ [];
  active_out = [];
  active_out_free = [];
  cooldown_in = λ k. none;
  cooldown_out = λ k. none;
  cooldown_out_free = λ k. none;
  remove_worse = false;
}

two-IsValid : IsValid two
unfolding make_peer make_peer_data
two-IsValid = record {
  are_sorted = record { ins_sorted = (omega arith, tt); outs_sorted = tt; outs_free_sorted = tt };
  is_within = record { ins_fit = omega arith; outs_fit = omega arith; outs_free_fit = omega arith };
  are_known = record {
    ins_known = λ k h. grind arith;
    outs_known = λ k h. grind arith;
    outs_free_known = λ k h. grind arith;
  };
}

abbrev as_given : List (ℕ × PeerData) → List (ℕ × PeerData)
as_given v = v

connect-Gains_example :
    (q : PeerManager) × (connect (λ n. as_given) (5 ∷ 7 ∷ []) two ins ≡ some q)
    × IsValid q
    × Gains 1 (λ k. contains k (5 ∷ []) ≡ false) (5 ∷ []) (active q ins)
unfolding make_peer make_peer_data
connect-Gains_example =
    connect-Gains (λ n. as_given) (5 ∷ 7 ∷ []) two ins (λ n P v h. h) (refl, (refl, tt)) two-IsValid
      (omega arith)
