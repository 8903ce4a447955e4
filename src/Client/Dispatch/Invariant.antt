-- ===== src/Client/Dispatch/Invariant.antt =====
-- What holds of the partners of a client of src/client/client.cpp after any messages and rounds.
use tvpp_dev_base.Base.{
  ℕ, ◌%◌, ◌≡◌, ◌⊎◌, inl, inr, Bool, true, ◌==◌, Option, some, List, arith, Bool-cases,
}
use tvpp_dev_base.PeerManager.{PeerManager, inc_sent_chunks, set_remove_worse_partner}
use tvpp_dev_base.PeerManager.Round.{check_peer_list}
use tvpp_dev_base.PeerManager.Named.{inc_sent_chunks-HasNamed, check_peer_list-HasNamed}
use tvpp_dev_base.PeerManager.Valid.{check_peer_list-IsValid, inc_sent_chunks-IsValid}
use tvpp_dev_base.LeakyBucket.{LeakyBucket}
use tvpp_dev_base.Client.{Client, Outbox}
use tvpp_dev_base.Client.Play.{
  Player, Clock, udp_send, count_to_removal, clock_round, feed_player, soft_reset, wait_at_tip,
  play_chunk, wait_or_miss, miss_chunk, produce_chunk,
}
use tvpp_dev_base.Connector.Filled.{Picks}
use tvpp_dev_base.Client.Ask.{Asking, request_round}
use tvpp_dev_base.Client.Ask.Round.{request_round-IsAsked}
use tvpp_dev_base.Client.Share.{Member, Texts, Neighbours, handle_peerlist}
use tvpp_dev_base.Client.Share.Sound.{AreSteady, handle_peerlist-IsSound}
use tvpp_dev_base.Client.Dispatch.{Source, handle_udp}
use tvpp_dev_base.Client.Dispatch.Sound.{IsSound, udp-IsSound}

counted-IsSound : (p : PeerManager) (k : ℕ) → IsSound p → IsSound (inc_sent_chunks p k)
counted-IsSound p k s = record {
  valid = inc_sent_chunks-IsValid p k s.valid;
  named = inc_sent_chunks-HasNamed p k s.named;
}

swept-IsSound : (p : PeerManager) → IsSound p → IsSound (check_peer_list p)
swept-IsSound p s = record {
  valid = check_peer_list-IsValid p s.valid;
  named = check_peer_list-HasNamed p s.valid s.named;
}

send-IsSound :
    (is_recent filter : Bool) (c : Client) (bucket : Option LeakyBucket) (to : ℕ) (m : List ℕ)
    (o : Outbox × (Option LeakyBucket × Client))
    → udp_send is_recent filter c bucket to m ≡ some o
    → IsSound c.peer_manager
    → IsSound o.1.1.peer_manager
unfolding udp_send
send-IsSound is_recent filter c bucket to m o e s = elim cases [
  | inl same ↦ rw same s
  | inr same ↦ rw same (counted-IsSound c.peer_manager to s)
]
  where
    cases :
        (o.1.1.peer_manager ≡ c.peer_manager)
        ⊎ (o.1.1.peer_manager ≡ inc_sent_chunks c.peer_manager to)
    cases = ground (arith, e)

allowed-IsSound : (p : PeerManager) (b : Bool) → IsSound p → IsSound (set_remove_worse_partner p b)
unfolding set_remove_worse_partner
allowed-IsSound p b s = record {
  valid = record {
    are_sorted = record {
      ins_sorted = s.valid.are_sorted.ins_sorted;
      outs_sorted = s.valid.are_sorted.outs_sorted;
      outs_free_sorted = s.valid.are_sorted.outs_free_sorted;
    };
    is_within = record {
      ins_fit = s.valid.is_within.ins_fit;
      outs_fit = s.valid.is_within.outs_fit;
      outs_free_fit = s.valid.is_within.outs_free_fit;
    };
    are_known = record {
      ins_known = s.valid.are_known.ins_known;
      outs_known = s.valid.are_known.outs_known;
      outs_free_known = s.valid.are_known.outs_free_known;
    };
  };
  named = s.named;
}

count-IsSound :
    (remove_worse : Bool) (seconds : ℕ) (k : Clock)
    → IsSound k.client.peer_manager
    → IsSound (count_to_removal remove_worse seconds k).client.peer_manager
unfolding count_to_removal
count-IsSound remove_worse seconds k s = elim cases [
  | inl same ↦ rw same s
  | inr same ↦ rw same (allowed-IsSound k.client.peer_manager true s)
]
  where
    cases :
        ((count_to_removal remove_worse seconds k).client.peer_manager ≡ k.client.peer_manager)
        ⊎ ((count_to_removal remove_worse seconds k).client.peer_manager
            ≡ set_remove_worse_partner k.client.peer_manager true)
    cases = ground arith

clock-IsSound :
    (remove_worse : Bool) (seconds : ℕ) (k : Clock)
    → IsSound k.client.peer_manager
    → IsSound (clock_round remove_worse seconds k).client.peer_manager
unfolding clock_round
clock-IsSound remove_worse seconds k s = elim (Bool-cases (k.cycle % 10 == 0)) [
  | inr t ↦ rw t s
  | inl t ↦ rw t (count-IsSound remove_worse seconds _ (swept-IsSound k.client.peer_manager s))
]

feed_keeps :
    (p p' : Player) → feed_player p ≡ some p' → p'.client.peer_manager ≡ p.client.peer_manager
unfolding feed_player soft_reset wait_at_tip play_chunk wait_or_miss miss_chunk
feed_keeps p p' e = ground (arith, e)

produce_keeps :
    (fresh received : List ℕ) (now duration : ℕ) (c c' : Client)
    → produce_chunk fresh received now duration c ≡ some c'
    → c'.peer_manager ≡ c.peer_manager
unfolding produce_chunk
produce_keeps fresh received now duration c c' e = ground (arith, e)

-- A step of the client: a message of another peer, the answer of the bootstrap server, a message that is sent, a round of the clock, of the
-- player, of the source, or of the requests.
pub data Step (fresh : List ℕ) : Client → Client → Type 1 where
  hears :
      {c c' : Client} (separated : Bool) (delay : ℕ) (source : Source) (m : List ℕ) (sent : Outbox)
      (ends : Bool)
      → handle_udp fresh separated delay c source m ≡ some ((c', sent), ends)
      → Step fresh c c'
  sends :
      {c c' : Client} (is_recent filter : Bool) (bucket bucket' : Option LeakyBucket) (to : ℕ)
      (m : List ℕ) (sent : Outbox)
      → udp_send is_recent filter c bucket to m ≡ some (sent, (bucket', c'))
      → Step fresh c c'
  ticks :
      {c' : Client} (remove_worse : Bool) (seconds : ℕ) (k : Clock)
      → c' ≡ (clock_round remove_worse seconds k).client
      → Step fresh k.client c'
  plays :
      {c' : Client} (p p' : Player)
      → feed_player p ≡ some p'
      → c' ≡ p'.client
      → Step fresh p.client c'
  produces :
      {c c' : Client} (received : List ℕ) (now duration : ℕ)
      → produce_chunk fresh received now duration c ≡ some c'
      → Step fresh c c'
  asks :
      {c c' : Client} (a : Asking) (n n' : ℕ) (sent : Outbox)
      → request_round fresh a (n, c) ≡ some ((n', c'), sent)
      → Picks a.scheduler
      → Step fresh c c'
  joins :
      {c' : Client} (n : Neighbours) (t : Texts) (m : List ℕ) (now : ℕ) (r r' : Member)
      (ends : Bool)
      → handle_peerlist n t m now r ≡ some (ends, r')
      → AreSteady n
      → c' ≡ r'.client
      → Step fresh r.client c'

pub data Reach (fresh : List ℕ) (c : Client) : Client → Type 1 where
  here : Reach fresh c c
  next : {d e : Client} → Reach fresh c d → Step fresh d e → Reach fresh c e

step-IsSound :
    {fresh : List ℕ} {c c' : Client}
    → Step fresh c c'
    → IsSound c.peer_manager
    → IsSound c'.peer_manager
step-IsSound {fresh} {c} {c'} (hears separated delay source m sent ends e) s =
    udp-IsSound fresh separated delay c source m ((c', sent), ends) e s
step-IsSound {fresh} {c} {c'} (sends is_recent filter b b' to m sent e) s =
    send-IsSound is_recent filter c b to m (sent, (b', c')) e s
step-IsSound (ticks remove_worse seconds k e) s = rw e (clock-IsSound remove_worse seconds k s)
step-IsSound (plays p p' e same) s = rw (same, feed_keeps p p' e) s
step-IsSound {fresh} {c} {c'} (produces received now duration e) s =
    rw (produce_keeps fresh received now duration c c' e) s
step-IsSound {fresh} {c} {c'} (asks a n n' sent e keeps) s =
    (request_round-IsAsked fresh a n n' c c' sent e keeps s).0
step-IsSound (joins n t m now r r' ends e a same) s =
    rw same (handle_peerlist-IsSound n t m now r (ends, r') e a s)

-- After any messages of other peers, answers of the bootstrap server, messages sent, and rounds of the
-- clock, the player, the source and the requests, from sound partners, the partners are sound: the
-- three lists are sorted and within their limits, every partner in them is known, and every entry
-- holds the peer of its id. Of the chunk scheduler and the strategy it is assumed that they pick from
-- their vectors, of the sort that it makes no new ids, and of the ids given to the connector that they
-- are those of known peers.
pub Reach-IsSound :
    {fresh : List ℕ} {c c' : Client}
    → Reach fresh c c'
    → IsSound c.peer_manager
    → IsSound c'.peer_manager
Reach-IsSound here s = s
Reach-IsSound (next r t) s = step-IsSound t (Reach-IsSound r s)
